-- ===== src/Parser/Files/Builtins/Built.antt =====
-- pkg/parser/file_parser.go: what a visit to an identifier adds to the first uses.
use mathlib.Core.List.{append-nil, append_assoc}
use askl_golang_indexer.Prelude.{
  ℕ, ◌≡◌, refl, ◌∙◌, ap, sym, subst, Bool, true, false, ◌||◌, Option, none, some, List, [], ◌∷◌,
  ◌++◌, if◌then◌else◌, arith, Text,
}
use askl_golang_indexer.Prelude.{inl, inr, In, In-append, text_beq_iff}
use askl_golang_indexer.Index.State.{ProtoIndex, Position}
use askl_golang_indexer.Index.Directories.{has_text}
use askl_golang_indexer.Indexing.Expand.{DistinctTexts, DistinctTexts-append, has_text-append}
use askl_golang_indexer.Parser.Types.{Ident, TypesObject, type_name, other_object}
use askl_golang_indexer.Parser.Types.{TypeName}
use askl_golang_indexer.Parser.Packages.Deferred.{with_logs, with_logs-append}
use askl_golang_indexer.Parser.Files.Builtins.Uses.{
  FirstUse, names, names-append, IsFirstUse, IsFirstUse-more, log_of_use, logs_of_uses,
  logs_of_uses-append, refer_to-logs,
}
use askl_golang_indexer.Parser.Files.Builtins.{
  Builtins, refer_to, add_builtin_name, add_builtin_type, add_builtin,
}

module _ (uses : ℕ → Option TypesObject) (builtin : Text → Position) (fset : ℕ → Position)
    (file_id : ℕ) where
  -- What the walk has done since the index `i`, for the identifiers `ids`.
  pub record IsBuilt (i : ProtoIndex) (ids : List Ident) (s : Builtins) : Type 0 where
    pub first_uses : List FirstUse
    pub same : (t : Text) → has_text t (names first_uses) ≡ has_text t s.seen
    pub distinct : DistinctTexts (names first_uses)
    pub used : (u : FirstUse) → In u first_uses → IsFirstUse uses ids u
    pub all_used :
        (id : Ident) (tn : TypeName)
        → In id ids
        → uses id.node ≡ some (type_name tn)
        → tn.pkg ≡ none
        → has_text tn.name s.seen ≡ true
    pub logged : s.index ≡ with_logs i (logs_of_uses builtin fset file_id first_uses)

  -- An identifier that adds nothing.
  unused :
      (i : ProtoIndex) (ids : List Ident) (id : Ident) (s : Builtins)
      → ((tn : TypeName)
          → uses id.node ≡ some (type_name tn)
          → tn.pkg ≡ none
          → has_text tn.name s.seen ≡ true)
      → IsBuilt i ids s
      → IsBuilt i (ids ++ id ∷ []) s
  unused i ids id s why v = record {
    first_uses = v.first_uses;
    same = v.same;
    distinct = v.distinct;
    used = λ u m. IsFirstUse-more uses ids (id ∷ []) u (v.used u m);
    all_used = λ j tn m e p. elim (In-append j ids (id ∷ []) m) [
      | inl l ↦ v.all_used j tn l e p
      | inr (inl f) ↦ why tn (ap (λ (k : Ident). uses k.node) f ∙ e) p
      | inr (inr z) ↦ absurd z
    ];
    logged = v.logged;
  }

  same_type : {a b : TypeName} → some (type_name a) ≡ some (type_name b) → a ≡ b
  same_type e = ground arith

  has_text_more :
      (t u : Text) (texts : List Text) → has_text t texts ≡ true → has_text t (u ∷ texts) ≡ true
  unfolding has_text
  has_text_more t u texts h = ground arith

  has_text_first : (t : Text) (texts : List Text) → has_text t (t ∷ texts) ≡ true
  unfolding has_text
  has_text_first t texts = ground (arith, (text_beq_iff t t).1 refl)

  use_added :
      (i : ProtoIndex) (ids : List Ident) (id : Ident) (tn : TypeName) (s : Builtins)
      → uses id.node ≡ some (type_name tn)
      → tn.pkg ≡ none
      → has_text tn.name s.seen ≡ false
      → IsBuilt i ids s
      → IsBuilt i (ids ++ id ∷ []) (record {
        seen = tn.name ∷ s.seen;
        index = refer_to uses builtin fset file_id id tn.name s.index;
      })
  unfolding has_text
  use_added i ids id tn s resolves predeclared new v =
      let us = v.first_uses in
      let name = tn.name in
      let split = names-append us ((name, id) ∷ []) in
      record {
        first_uses = us ++ (name, id) ∷ [];
        same = λ t.
            ap (has_text t) split ∙ has_text-append t (names us) (name ∷ []) ∙ swapped t (v.same t);
        distinct =
            subst DistinctTexts (sym split)
              (DistinctTexts-append (names us) name (v.same name ∙ new) v.distinct);
        used = λ u m. elim (In-append u us ((name, id) ∷ []) m) [
          | inl l ↦ IsFirstUse-more uses ids (id ∷ []) u (v.used u l)
          | inr (inl f) ↦ subst (IsFirstUse uses (ids ++ id ∷ [])) f (
            tn,
            ids,
            [],
            refl,
            resolves,
            refl,
            predeclared,
            λ j a m e p n. not_seen (v.all_used j a m e p) n,
          )
          | inr (inr z) ↦ absurd z
        ];
        all_used = λ j a m e p. elim (In-append j ids (id ∷ []) m) [
          | inl l ↦ has_text_more a.name name s.seen (v.all_used j a l e p)
          | inr (inl f) ↦
              subst (λ (b : TypeName). has_text b.name (name ∷ s.seen) ≡ true)
                (same_type (sym resolves ∙ ap (λ (k : Ident). uses k.node) f ∙ e))
                (has_text_first name s.seen)
          | inr (inr z) ↦ absurd z
        ];
        logged =
            refer_to-logs builtin fset file_id uses id name s.index
            ∙ ap (λ j. with_logs j (log_of_use builtin fset file_id (name, id))) v.logged
            ∙ with_logs-append i (logs_of_uses builtin fset file_id us)
                (log_of_use builtin fset file_id (name, id))
            ∙ ap (with_logs i) (
                ap (λ l. logs_of_uses builtin fset file_id us ++ l)
                  (sym (append-nil (log_of_use builtin fset file_id (name, id))))
                ∙ sym (logs_of_uses-append builtin fset file_id us ((name, id) ∷ [])));
      }
    where
      not_seen : {name : Text} → has_text name s.seen ≡ true → name ≡ tn.name → ⊥
      not_seen h e = true_false (sym h ∙ ap (λ t. has_text t s.seen) e ∙ new)
        where
          true_false : true ≡ false → ⊥
          true_false x = ground arith

      swapped :
          (t : Text)
          → has_text t (names v.first_uses) ≡ has_text t s.seen
          → (has_text t (names v.first_uses) || has_text t (tn.name ∷ []))
            ≡ has_text t (tn.name ∷ s.seen)
      swapped t e = ground arith

  add_builtin_name-IsBuilt :
      (i : ProtoIndex) (ids : List Ident) (id : Ident) (tn : TypeName) (s : Builtins)
      → uses id.node ≡ some (type_name tn)
      → tn.pkg ≡ none
      → IsBuilt i ids s
      → IsBuilt i (ids ++ id ∷ []) (add_builtin_name uses builtin fset file_id id tn.name s)
  unfolding add_builtin_name
  add_builtin_name-IsBuilt i ids id tn s e p v = at_test (has_text tn.name s.seen) refl
    where
      at_test :
          (b : Bool)
          → has_text tn.name s.seen ≡ b
          → IsBuilt i (ids ++ id ∷ []) (
              if b then s else record {
                seen = tn.name ∷ s.seen;
                index = refer_to uses builtin fset file_id id tn.name s.index;
              })
      at_test true t =
          unused i ids id s
            (λ a f q.
              subst (λ (b : TypeName). has_text b.name s.seen ≡ true) (same_type (sym e ∙ f)) t)
            v
      at_test false t = use_added i ids id tn s e p t v

  pub add_builtin-IsBuilt :
      (i : ProtoIndex) (ids : List Ident) (id : Ident) (o : Option TypesObject) (s : Builtins)
      → uses id.node ≡ o
      → IsBuilt i ids s
      → IsBuilt i (ids ++ id ∷ []) (add_builtin uses builtin fset file_id id o s)
  add_builtin-IsBuilt i ids id none s e v =
      unused i ids id s (λ a f q. absurd (differ (sym e ∙ f))) v
    where
      differ : {a : TypeName} → none ≡ some (type_name a) → ⊥
      differ x = ground arith
  add_builtin-IsBuilt i ids id (some other_object) s e v =
      unused i ids id s (λ a f q. absurd (differ (sym e ∙ f))) v
    where
      differ : {a : TypeName} → some other_object ≡ some (type_name a) → ⊥
      differ x = ground arith
  add_builtin-IsBuilt i ids id (some (type_name tn)) s e v = at_pkg tn.pkg refl
    where
      differ : {path : Text} → ◌≡◌ {A = Option Text} none (some path) → ⊥
      differ x = ground arith

      at_pkg :
          (o : Option Text)
          → tn.pkg ≡ o
          → IsBuilt i (ids ++ id ∷ []) (add_builtin_type uses builtin fset file_id id tn.name o s)
      at_pkg none p = add_builtin_name-IsBuilt i ids id tn s e p v
      at_pkg (some path) p =
          unused i ids id s
            (λ a f q.
              absurd (differ (sym q ∙ ap (λ (b : TypeName). b.pkg) (same_type (sym f ∙ e)) ∙ p)))
            v

  pub no_more :
      (i : ProtoIndex) (ids : List Ident) (s : Builtins) → IsBuilt i ids s → IsBuilt i (ids ++ []) s
  no_more i ids s v = subst (λ l. IsBuilt i l s) (sym (append-nil ids)) v

  pub regroup :
      (i : ProtoIndex) (ids xs ys : List Ident) (s : Builtins)
      → IsBuilt i ((ids ++ xs) ++ ys) s
      → IsBuilt i (ids ++ (xs ++ ys)) s
  regroup i ids xs ys s v = subst (λ l. IsBuilt i l s) (append_assoc ids xs ys) v
