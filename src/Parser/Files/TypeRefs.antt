-- ===== src/Parser/Files/TypeRefs.antt =====
-- pkg/parser/file_parser.go: which references to types are made at once, and which wait.
use mathlib.Core.List.{append-nil, append_assoc}
use askl_golang_indexer.Prelude.{
  ℕ, ◌≡◌, refl, ◌∙◌, ap, sym, inl, inr, Option, none, some, List, [], ◌∷◌, ◌++◌, Text, Map, lookup,
  text_eq, In,
}
use askl_golang_indexer.Index.State.{ProtoIndex, Position, ReferenceLog}
use askl_golang_indexer.Index.References.{add_reference}
use askl_golang_indexer.Parser.Types.{TypeRef}
use askl_golang_indexer.Parser.Packages.{Postponed, DeferredTypeRef, type_full_name, or_panic}
use askl_golang_indexer.Parser.Packages.Deferred.{
  accepted, with_logs, with_logs_nil, with_logs-append, add_reference-accepted, text_of, HasPkg,
  full_name-text_of, found, find_file_id-found,
}
use askl_golang_indexer.Parser.Files.{add_or_wait, add_type_refs}

module _ (fset : ℕ → Position) (file_id : ℕ) where
  -- A reference to a type whose file is indexed.
  abbrev made : Option ℕ → TypeRef → List ReferenceLog
  made none ref = []
  made (some _) ref = accepted (record {
    from_file = file_id;
    to = fset ref.type_name.pos;
    to_name = text_of (type_full_name ref.type_name);
    start = fset ref.use_pos;
    end = fset ref.use_end;
    full = none;
  })

  -- One whose file is not.
  abbrev kept : Option ℕ → TypeRef → List DeferredTypeRef
  kept none ref =
      (record {
        from_file_id = file_id;
        type_name = ref.type_name;
        use_start = fset ref.use_pos;
        use_end = fset ref.use_end;
        fset = fset;
      })
      ∷ []
  kept (some _) ref = []

  abbrev pub all_made : Map Text ℕ → List TypeRef → List ReferenceLog
  all_made files [] = []
  all_made files (ref ∷ refs) =
      made (lookup (fset ref.type_name.pos).filename files) ref ++ all_made files refs

  abbrev pub all_kept : Map Text ℕ → List TypeRef → List DeferredTypeRef
  all_kept files [] = []
  all_kept files (ref ∷ refs) =
      kept (lookup (fset ref.type_name.pos).filename files) ref ++ all_kept files refs

  abbrev pub with_refs : Postponed → List ReferenceLog → List DeferredTypeRef → Postponed
  with_refs p logs refs = record p {
    type_refs = p.type_refs ++ refs;
    index = with_logs p.index logs;
  }

  with_refs-append :
      (p : Postponed) (a b : List ReferenceLog) (x y : List DeferredTypeRef)
      → with_refs (with_refs p a x) b y ≡ with_refs p (a ++ b) (x ++ y)
  with_refs-append p a b x y =
      ap (λ i. record p { type_refs = (p.type_refs ++ x) ++ y; index = i })
        (with_logs-append p.index a b)
      ∙ ap (λ refs. record p { type_refs = refs; index = with_logs p.index (a ++ b) })
          (append_assoc p.type_refs x y)

  with_refs_nil : (p : Postponed) → p ≡ with_refs p [] []
  with_refs_nil p =
      ap (λ i. record p { index = i }) (with_logs_nil p.index)
      ∙ ap (λ refs. record p { type_refs = refs; index = with_logs p.index [] })
          (sym (append-nil p.type_refs))

  one_ref :
      (o : Option ℕ) (ref : TypeRef) (p : Postponed)
      → HasPkg ref.type_name
      → add_or_wait fset file_id ref (found o) p ≡ some (with_refs p (made o ref) (kept o ref))
  unfolding found
  one_ref none ref p h =
      ap (λ i. some (record p { type_refs = p.type_refs ++ kept none ref; index = i }))
        (with_logs_nil p.index)
  one_ref (some id) ref p h =
      let out : ProtoIndex → Option Postponed = λ i. some (record p { index = i }) in
      ap
        (λ name. or_panic name (λ full_name.
          out
            (add_reference file_id (fset ref.type_name.pos) full_name (fset ref.use_pos)
              (fset ref.use_end) none p.index).1))
        (full_name-text_of ref.type_name h)
      ∙ ap out (
          add_reference-accepted file_id (fset ref.type_name.pos)
            (text_of (type_full_name ref.type_name)) (fset ref.use_pos) (fset ref.use_end) none
            p.index)
      ∙ ap
          (λ refs.
            some (record p { type_refs = refs; index = with_logs p.index (made (some id) ref) }))
          (sym (append-nil p.type_refs))

  -- Where every type has a package, each reference is dealt with once: those to types of indexed
  -- files are made, as far as `AddReference` accepts them, and the others wait, both in their
  -- order; nothing else changes.
  pub add_type_refs_lem :
      (refs : List TypeRef) (p : Postponed)
      → ((ref : TypeRef) → In ref refs → HasPkg ref.type_name)
      → add_type_refs fset file_id refs p
        ≡ some (
            with_refs p
              (all_made p.index.file_id_by_path refs)
              (all_kept p.index.file_id_by_path refs))
  unfolding add_type_refs
  add_type_refs_lem [] p h = ap some (with_refs_nil p)
  add_type_refs_lem (ref ∷ refs) p h =
      let files = p.index.file_id_by_path in
      let path = (fset ref.type_name.pos).filename in
      let o = lookup path files in
      ap (λ r. or_panic (add_or_wait fset file_id ref r p) (add_type_refs fset file_id refs))
        (find_file_id-found path p.index)
      ∙ ap (λ r. or_panic r (add_type_refs fset file_id refs)) (one_ref o ref p (h ref (inl refl)))
      ∙ add_type_refs_lem refs (with_refs p (made o ref) (kept o ref)) (λ r m. h r (inr m))
      ∙ ap some
          (with_refs-append p (made o ref) (all_made files refs) (kept o ref) (all_kept files refs))
