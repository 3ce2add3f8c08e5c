-- ===== src/Parser/Types/Collected.antt =====
-- pkg/parser/type_walker.go: which references `extractNamedTypes` returns.
use askl_golang_indexer.Prelude.{
  ℕ, ◌≡◌, refl, ◌∙◌, ap, sym, subst, inl, inr, true, false, Option, none, some, List, [], ◌∷◌, ◌++◌,
  arith, mem, Distinct, In, Bool-cases,
}
use mathlib.Core.List.{append-nil, append_assoc}
use askl_golang_indexer.Parser.Types.{
  Ident, TypeName, TypesObject, type_name, other_object, Exprs, TypeRef, Collection, new_refs,
  add_type_name, add_object, try_add, walk_exprs, extract_named_types,
}
use askl_golang_indexer.Parser.Types.Idents.{idents_of_all, add_all, walk_exprs-eq-add_all}
use askl_golang_indexer.Parser.Types.Fold.{
  Collectible, objects, UsedBy, Identified, IsCollected, no_change, add_new,
}

module _ (uses : ℕ → Option TypesObject) where
  add_param :
      (id : Ident) (tn : TypeName) (s : Collection)
      → tn.is_type_param ≡ true
      → add_type_name uses id tn s ≡ s
  unfolding add_type_name
  add_param id tn s t = ground arith

  add_again :
      (id : Ident) (tn : TypeName) (s : Collection)
      → mem tn.object s.seen ≡ true
      → add_type_name uses id tn s ≡ s
  unfolding add_type_name
  add_again id tn s k = ground arith

  add_first :
      (id : Ident) (tn : TypeName) (s : Collection)
      → tn.is_type_param ≡ false
      → mem tn.object s.seen ≡ false
      → add_type_name uses id tn s ≡ record {
        seen = tn.object ∷ s.seen;
        refs = s.refs ++ new_refs id tn tn.pkg tn.is_package_level;
      }
  unfolding add_type_name
  add_first id tn s t k = ground arith

  add_type_name-IsCollected :
      (ids : List Ident) (id : Ident) (tn : TypeName) (s : Collection)
      → uses id.node ≡ some (type_name tn)
      → IsCollected uses ids s
      → IsCollected uses (ids ++ id ∷ []) (add_type_name uses id tn s)
  add_type_name-IsCollected ids id tn s u h = elim (Bool-cases tn.is_type_param) [
    | inl t ↦
        subst (IsCollected uses (ids ++ id ∷ [])) (sym (add_param id tn s t))
          (no_change uses ids id s (λ a v c. absurd (param_not a (sym v ∙ u) t c)) h)
    | inr t ↦ elim (Bool-cases (mem tn.object s.seen)) [
      | inl k ↦
          subst (IsCollected uses (ids ++ id ∷ [])) (sym (add_again id tn s k))
            (no_change uses ids id s (λ a v c. there a (sym v ∙ u) k) h)
      | inr k ↦
          subst (IsCollected uses (ids ++ id ∷ [])) (sym (add_first id tn s t k))
            (add_new uses ids id tn s u t k h)
    ]
  ]
    where
      same_type : (a : TypeName) → some (type_name a) ≡ some (type_name tn) → a ≡ tn
      same_type a e = ground arith

      param_not :
          (a : TypeName)
          → some (type_name a) ≡ some (type_name tn)
          → tn.is_type_param ≡ true
          → Collectible a
          → ⊥
      param_not a e t c =
          true_false (sym t ∙ ap (λ (b : TypeName). b.is_type_param) (sym (same_type a e)) ∙ c.0)
        where
          true_false : true ≡ false → ⊥
          true_false x = ground arith

      there :
          (a : TypeName)
          → some (type_name a) ≡ some (type_name tn)
          → mem tn.object s.seen ≡ true
          → mem a.object s.seen ≡ true
      there a e k = subst (λ (b : TypeName). mem b.object s.seen ≡ true) (sym (same_type a e)) k

  add_object-IsCollected :
      (ids : List Ident) (id : Ident) (o : Option TypesObject) (s : Collection)
      → uses id.node ≡ o
      → IsCollected uses ids s
      → IsCollected uses (ids ++ id ∷ []) (add_object uses id o s)
  unfolding add_object
  add_object-IsCollected ids id none s u h =
      no_change uses ids id s (λ a v c. absurd (differ (sym u ∙ v))) h
    where
      differ : {a : TypeName} → none ≡ some (type_name a) → ⊥
      differ e = ground arith
  add_object-IsCollected ids id (some other_object) s u h =
      no_change uses ids id s (λ a v c. absurd (differ (sym u ∙ v))) h
    where
      differ : {a : TypeName} → some other_object ≡ some (type_name a) → ⊥
      differ e = ground arith
  add_object-IsCollected ids id (some (type_name tn)) s u h =
      add_type_name-IsCollected ids id tn s u h

  add_all-IsCollected :
      (before ids : List Ident) (s : Collection)
      → IsCollected uses before s
      → IsCollected uses (before ++ ids) (add_all uses ids s)
  add_all-IsCollected before [] s h = rw (append-nil before) h
  add_all-IsCollected before (id ∷ ids) s h =
      subst (λ l. IsCollected uses l (add_all uses ids (try_add uses id s)))
        (append_assoc before (id ∷ []) ids)
        (add_all-IsCollected (before ++ id ∷ []) ids (try_add uses id s)
          (add_object-IsCollected before id (uses id.node) s refl h))

  -- The references that are returned are those that a search through the identifiers would give: no
  -- type twice; each one a use, where it stands, of a package-level type that is neither predeclared
  -- nor a type parameter; and each such type that is used, whatever the constructs around it.
  -- `Identified uses`: two objects of go/types with one identity are one.
  pub extract_named_types_lem :
      Identified uses
      → (exprs : Exprs)
      → Distinct (objects (extract_named_types uses exprs))
        × ((r : TypeRef)
            → In r (extract_named_types uses exprs)
            → UsedBy uses (idents_of_all exprs) r)
        × ((id : Ident) (tn : TypeName)
            → In id (idents_of_all exprs)
            → uses id.node ≡ some (type_name tn)
            → Collectible tn
            → mem tn.object (objects (extract_named_types uses exprs)) ≡ true)
  unfolding extract_named_types
  extract_named_types_lem same exprs =
      let start : Collection = record { seen = []; refs = [] } in
      let h : IsCollected uses (idents_of_all exprs) (walk_exprs uses exprs start) =
        subst (IsCollected uses (idents_of_all exprs))
          (sym (walk_exprs-eq-add_all uses exprs start))
          (add_all-IsCollected [] (idents_of_all exprs) start (record {
            within_seen = λ x m. absurd (ground arith);
            distinct = tt;
            used = λ r m. absurd m;
            seen_by = λ x m. absurd (ground arith);
            all_seen = λ id tn m u c. absurd m;
          })) in
      (
        h.distinct,
        h.used,
        λ id tn m u c.
            let (a, n, v, e, all) = h.seen_by tn.object (h.all_seen id tn m u c) in
            all (subst Collectible (sym (same n id.node a tn v u e)) c),
      )
