-- ===== src/Parser/Types/Fold.antt =====
-- pkg/parser/type_walker.go: what one identifier after the other leaves collected.
use askl_golang_indexer.Prelude.{
  ℕ, ◌≡◌, refl, ◌∙◌, ap, sym, subst, inl, inr, Bool, true, false, ◌||◌, ◌==◌, ==_iff, Option, none,
  some, List, [], ◌∷◌, ◌++◌, map, arith, Text, mem, mem-append, Distinct, In, In-left, In-right,
  In-append, or-cases,
}
use mathlib.Core.List.{append-nil}
use askl_golang_indexer.Parser.Types.{
  Ident, TypeName, TypesObject, type_name, TypeRef, Collection, new_refs,
}

-- A package-level type, neither a type parameter nor predeclared.
abbrev pub Collectible : TypeName → Type 0
Collectible tn =
    (tn.is_type_param ≡ false)
    × ((path : Text) × (tn.pkg ≡ some path))
    × (tn.is_package_level ≡ true)

abbrev pub objects : List TypeRef → List ℕ
objects refs = map (λ r. r.type_name.object) refs

module _ (uses : ℕ → Option TypesObject) where
  -- A reference that an identifier of the list makes.
  abbrev pub UsedBy : List Ident → TypeRef → Type 0
  UsedBy ids r =
      (id : Ident) × In id ids
      × (uses id.node ≡ some (type_name r.type_name))
      × ((r.use_pos ≡ id.pos) × (r.use_end ≡ id.end))
      × Collectible r.type_name

  -- The identity of an object determines it.
  abbrev pub Identified : Type 0
  Identified =
      (m n : ℕ) (a b : TypeName)
      → uses m ≡ some (type_name a)
      → uses n ≡ some (type_name b)
      → a.object ≡ b.object
      → a ≡ b

  -- After the identifiers `ids`.
  pub record IsCollected (ids : List Ident) (s : Collection) : Type 0 where
    pub within_seen : (x : ℕ) → mem x (objects s.refs) ≡ true → mem x s.seen ≡ true
    pub distinct : Distinct (objects s.refs)
    pub used : (r : TypeRef) → In r s.refs → UsedBy ids r
    pub seen_by :
        (x : ℕ)
        → mem x s.seen ≡ true
        → (tn : TypeName) × (n : ℕ) × (uses n ≡ some (type_name tn))
          × (tn.object ≡ x)
          × (Collectible tn → mem x (objects s.refs) ≡ true)
    pub all_seen :
        (id : Ident) (tn : TypeName)
        → In id ids
        → uses id.node ≡ some (type_name tn)
        → Collectible tn
        → mem tn.object s.seen ≡ true

  objects-append : (xs ys : List TypeRef) → objects (xs ++ ys) ≡ objects xs ++ objects ys
  objects-append [] ys = refl
  objects-append (x ∷ xs) ys = ap (λ l. x.type_name.object ∷ l) (objects-append xs ys)

  Distinct-snoc : (xs : List ℕ) (x : ℕ) → mem x xs ≡ false → Distinct xs → Distinct (xs ++ x ∷ [])
  Distinct-snoc [] x h d = (refl, tt)
  Distinct-snoc (y ∷ xs) x h d =
      (ground (arith, mem-append y xs (x ∷ []), d.0), Distinct-snoc xs x (ground arith) d.1)

  UsedBy-more : (ids more : List Ident) (r : TypeRef) → UsedBy ids r → UsedBy (ids ++ more) r
  UsedBy-more ids more r (id, m, u, at, c) = (id, In-left id ids more m, u, at, c)

  -- An identifier that adds nothing, for one of three reasons.
  pub no_change :
      (ids : List Ident) (id : Ident) (s : Collection)
      → ((tn : TypeName)
          → uses id.node ≡ some (type_name tn)
          → Collectible tn
          → mem tn.object s.seen ≡ true)
      → IsCollected ids s
      → IsCollected (ids ++ id ∷ []) s
  no_change ids id s why h = record {
    within_seen = h.within_seen;
    distinct = h.distinct;
    used = λ r m. UsedBy-more ids (id ∷ []) r (h.used r m);
    seen_by = h.seen_by;
    all_seen = λ i tn m u c. elim (In-append i ids (id ∷ []) m) [
      | inl k ↦ h.all_seen i tn k u c
      | inr (inl e) ↦ why tn (ap (λ (j : Ident). uses j.node) e ∙ u) c
      | inr (inr n) ↦ absurd n
    ];
  }

  -- The first use of a type: what is appended, if it is collectible or not.
  new_refs-objects :
      (id : Ident) (tn : TypeName) (o : Option Text) (level : Bool) (x : ℕ)
      → mem x (objects (new_refs id tn o level)) ≡ true
      → tn.object ≡ x
  new_refs-objects id tn none level x m = absurd (ground arith)
  new_refs-objects id tn (some path) false x m = absurd (ground arith)
  new_refs-objects id tn (some path) true x m = ground arith

  new_refs-Distinct :
      (id : Ident) (tn : TypeName) (o : Option Text) (level : Bool) (xs : List ℕ)
      → mem tn.object xs ≡ false
      → Distinct xs
      → Distinct (xs ++ objects (new_refs id tn o level))
  new_refs-Distinct id tn none level xs h d = rw (append-nil xs) d
  new_refs-Distinct id tn (some path) false xs h d = rw (append-nil xs) d
  new_refs-Distinct id tn (some path) true xs h d = Distinct-snoc xs tn.object h d

  new_refs-UsedBy :
      (ids : List Ident) (id : Ident) (tn : TypeName) (o : Option Text) (level : Bool) (r : TypeRef)
      → uses id.node ≡ some (type_name tn)
      → tn.is_type_param ≡ false
      → tn.pkg ≡ o
      → tn.is_package_level ≡ level
      → In r (new_refs id tn o level)
      → UsedBy (ids ++ id ∷ []) r
  new_refs-UsedBy ids id tn none level r u t e l m = absurd m
  new_refs-UsedBy ids id tn (some path) false r u t e l m = absurd m
  new_refs-UsedBy ids id tn (some path) true r u t e l (inr n) = absurd n
  new_refs-UsedBy ids id tn (some path) true r u t e l (inl f) =
      subst (UsedBy (ids ++ id ∷ [])) f
        (id, In-right id ids (id ∷ []) (inl refl), u, (refl, refl), (t, (path, e), l))

  new_refs-all :
      (id : Ident) (tn : TypeName)
      → Collectible tn
      → mem tn.object (objects (new_refs id tn tn.pkg tn.is_package_level)) ≡ true
  new_refs-all id tn (t, (path, e), l) = rw (e, l) (ground arith)

  pub add_new :
      (ids : List Ident) (id : Ident) (tn : TypeName) (s : Collection)
      → uses id.node ≡ some (type_name tn)
      → tn.is_type_param ≡ false
      → mem tn.object s.seen ≡ false
      → IsCollected ids s
      → IsCollected (ids ++ id ∷ []) (record {
        seen = tn.object ∷ s.seen;
        refs = s.refs ++ new_refs id tn tn.pkg tn.is_package_level;
      })
  add_new ids id tn s u t fresh h =
      let more = new_refs id tn tn.pkg tn.is_package_level in
      let same = objects-append s.refs more in
      let split : (x : ℕ)
          → mem x (objects (s.refs ++ more)) ≡ (mem x (objects s.refs) || mem x (objects more)) =
        λ x. ap (mem x) same ∙ mem-append x (objects s.refs) (objects more) in
      record {
        within_seen = λ x m.
            elim (or-cases (mem x (objects s.refs)) (mem x (objects more)) (sym (split x) ∙ m)) [
              | inl k ↦ ground (arith, h.within_seen x k)
              | inr k ↦ ground (arith, new_refs-objects id tn tn.pkg tn.is_package_level x k)
            ];
        distinct = subst Distinct (sym same) (
            new_refs-Distinct id tn tn.pkg tn.is_package_level (objects s.refs)
              (not_within (mem tn.object (objects s.refs)) refl) h.distinct);
        used = λ r m. elim (In-append r s.refs more m) [
          | inl k ↦ UsedBy-more ids (id ∷ []) r (h.used r k)
          | inr k ↦ new_refs-UsedBy ids id tn tn.pkg tn.is_package_level r u t refl refl k
        ];
        seen_by = λ x m. elim (or-cases (tn.object == x) (mem x s.seen) m) [
          | inl e ↦ (
            tn,
            id.node,
            u,
            (==_iff tn.object x).0 e,
            λ c.
                split x
                ∙ rw (sym ((==_iff tn.object x).0 e))
                    (or_true (mem tn.object (objects s.refs)) (new_refs-all id tn c)),
          )
          | inr k ↦
              let (a, n, v, e, all) = h.seen_by x k in
              (a, n, v, e, λ c. split x ∙ ap (λ b. b || mem x (objects more)) (all c))
        ];
        all_seen = λ i a m v c. elim (In-append i ids (id ∷ []) m) [
          | inl k ↦ ground (arith, h.all_seen i a k v c)
          | inr (inl e) ↦
              rw (same_type a (sym v ∙ ap (λ (j : Ident). uses j.node) (sym e) ∙ u)) (ground arith)
          | inr (inr n) ↦ absurd n
        ];
      }
    where
      not_within :
          (b : Bool) → mem tn.object (objects s.refs) ≡ b → mem tn.object (objects s.refs) ≡ false
      not_within true e = absurd (true_false (sym (h.within_seen tn.object e) ∙ fresh))
        where
          true_false : true ≡ false → ⊥
          true_false x = ground arith
      not_within false e = e

      or_true : (a : Bool) {b : Bool} → b ≡ true → (a || b) ≡ true
      or_true a e = ground arith

      same_type : (a : TypeName) → some (type_name a) ≡ some (type_name tn) → a ≡ tn
      same_type a e = ground arith
