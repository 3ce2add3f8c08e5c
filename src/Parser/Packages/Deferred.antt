-- ===== src/Parser/Packages/Deferred.antt =====
-- pkg/parser/parser.go: what the references that waited add to the index.
use mathlib.Core.List.{append-nil, append_assoc}
use askl_golang_indexer.Prelude.{
  ℕ, ◌+◌, ◌≡◌, refl, ◌∙◌, ap, sym, inl, inr, not, ◌&&◌, Option, none, some, List, [], ◌∷◌, ◌++◌,
  if◌then◌else◌, arith, Text, text_beq, length, Map, lookup, text_eq, In, Bool-cases,
}
use askl_golang_indexer.Index.State.{ProtoIndex, Position, ByteSpan, ReferenceLog}
use askl_golang_indexer.Index.Files.{Outcome, done, failed, file_not_found, find_file_id}
use askl_golang_indexer.Index.References.{is_valid, add_reference}
use askl_golang_indexer.Parser.Types.{TypeName}
use askl_golang_indexer.Parser.Packages.{
  MethodReceiverRef, DeferredTypeRef, Postponed, type_full_name, or_panic, receiver_at,
  resolve_receivers, type_ref_at, resolve_type_refs, resolve_deferred_refs,
}

-- What `AddReference` takes: nothing without a position of the target, or of a file.
abbrev pub accepted : ReferenceLog → List ReferenceLog
accepted log =
    if not (is_valid log.start) && text_beq log.start.filename []
    then []
    else if not (is_valid log.to)
    then []
    else log ∷ []

abbrev pub with_logs : ProtoIndex → List ReferenceLog → ProtoIndex
with_logs i logs = record i { references_log = i.references_log ++ logs }

pub with_logs_nil : (i : ProtoIndex) → i ≡ with_logs i []
with_logs_nil i =
    ap (λ logs. record i { references_log = logs }) (sym (append-nil i.references_log))

pub with_logs-append :
    (i : ProtoIndex) (a b : List ReferenceLog) → with_logs (with_logs i a) b ≡ with_logs i (a ++ b)
with_logs-append i a b =
    ap (λ logs. record i { references_log = logs }) (append_assoc i.references_log a b)

pub add_reference-accepted :
    (from : ℕ) (to : Position) (name : Text) (start end : Position) (full : Option ByteSpan)
    (i : ProtoIndex)
    → (add_reference from to name start end full i).1
      ≡ with_logs i (
          accepted (record {
            from_file = from;
            to = to;
            to_name = name;
            start = start;
            end = end;
            full = full;
          }))
unfolding add_reference
add_reference-accepted from to name start end full i =
    elim (Bool-cases (not (is_valid start) && text_beq start.filename [])) [
      | inl e ↦ rw e (with_logs_nil i)
      | inr e ↦ elim (Bool-cases (not (is_valid to))) [
        | inl f ↦ rw (e, f) (with_logs_nil i)
        | inr f ↦ rw (e, f) refl
      ]
    ]

abbrev pub text_of : Option Text → Text
text_of none = []
text_of (some t) = t

-- The reference of a receiver's type to its method, at the name of the type.
abbrev receiver_log : Option ℕ → MethodReceiverRef → List ReferenceLog
receiver_log none ref = []
receiver_log (some type_file_id) ref = accepted (record {
  from_file = type_file_id;
  to = ref.method_pos;
  to_name = ref.method_full_name;
  start = ref.fset ref.type_name.pos;
  end = ref.fset (ref.type_name.pos + length ref.type_name.name);
  full = none;
})

-- The reference to a type, at its use.
abbrev type_log : Option ℕ → DeferredTypeRef → List ReferenceLog
type_log none ref = []
type_log (some _) ref = accepted (record {
  from_file = ref.from_file_id;
  to = ref.fset ref.type_name.pos;
  to_name = text_of (type_full_name ref.type_name);
  start = ref.use_start;
  end = ref.use_end;
  full = none;
})

abbrev pub receiver_logs : Map Text ℕ → List MethodReceiverRef → List ReferenceLog
receiver_logs files [] = []
receiver_logs files (ref ∷ refs) =
    receiver_log (lookup (ref.fset ref.type_name.pos).filename files) ref
    ++ receiver_logs files refs

abbrev pub type_logs : Map Text ℕ → List DeferredTypeRef → List ReferenceLog
type_logs files [] = []
type_logs files (ref ∷ refs) =
    type_log (lookup (ref.fset ref.type_name.pos).filename files) ref ++ type_logs files refs

-- The type has a package.
abbrev pub HasPkg : TypeName → Type 0
HasPkg tn = (path : Text) × (tn.pkg ≡ some path)

pub full_name-text_of :
    (tn : TypeName) → HasPkg tn → type_full_name tn ≡ some (text_of (type_full_name tn))
full_name-text_of tn (path, e) = rw e refl

unfoldable pub found : Option ℕ → Outcome ℕ
found none = failed file_not_found
found (some id) = done id

pub find_file_id-found :
    (path : Text) (i : ProtoIndex) → find_file_id path i ≡ found (lookup path i.file_id_by_path)
unfolding find_file_id found
find_file_id-found path i = at_file (lookup path i.file_id_by_path) refl
  where
    at_file :
        (o : Option ℕ)
        → lookup path i.file_id_by_path ≡ o
        → find_file_id path i ≡ found (lookup path i.file_id_by_path)
    at_file none e = ground arith
    at_file (some id) e = ground arith

receiver_step :
    (o : Option ℕ) (ref : MethodReceiverRef) (i : ProtoIndex)
    → HasPkg ref.type_name
    → receiver_at (found o) ref i ≡ some (with_logs i (receiver_log o ref))
unfolding found
receiver_step none ref i h = ap some (with_logs_nil i)
receiver_step (some id) ref i h =
    ap
      (λ name. or_panic name (λ _.
        some
          (add_reference id ref.method_pos ref.method_full_name (ref.fset ref.type_name.pos)
            (ref.fset (ref.type_name.pos + length ref.type_name.name)) none i).1))
      (full_name-text_of ref.type_name h)
    ∙ ap some (
        add_reference-accepted id ref.method_pos ref.method_full_name (ref.fset ref.type_name.pos)
          (ref.fset (ref.type_name.pos + length ref.type_name.name)) none i)

type_step :
    (o : Option ℕ) (ref : DeferredTypeRef) (i : ProtoIndex)
    → HasPkg ref.type_name
    → type_ref_at (found o) ref i ≡ some (with_logs i (type_log o ref))
unfolding found
type_step none ref i h = ap some (with_logs_nil i)
type_step (some id) ref i h =
    ap
      (λ name. or_panic name (λ full_name.
        some
          (add_reference ref.from_file_id (ref.fset ref.type_name.pos) full_name ref.use_start
            ref.use_end none i).1))
      (full_name-text_of ref.type_name h)
    ∙ ap some (
        add_reference-accepted ref.from_file_id (ref.fset ref.type_name.pos)
          (text_of (type_full_name ref.type_name)) ref.use_start ref.use_end none i)

resolve_receivers-logs :
    (refs : List MethodReceiverRef) (i : ProtoIndex)
    → ((ref : MethodReceiverRef) → In ref refs → HasPkg ref.type_name)
    → resolve_receivers refs i ≡ some (with_logs i (receiver_logs i.file_id_by_path refs))
unfolding resolve_receivers
resolve_receivers-logs [] i h = ap some (with_logs_nil i)
resolve_receivers-logs (ref ∷ refs) i h =
    let path = (ref.fset ref.type_name.pos).filename in
    let log = receiver_log (lookup path i.file_id_by_path) ref in
    ap (λ o. or_panic (receiver_at o ref i) (resolve_receivers refs)) (find_file_id-found path i)
    ∙ ap (λ r. or_panic r (resolve_receivers refs))
        (receiver_step (lookup path i.file_id_by_path) ref i (h ref (inl refl)))
    ∙ resolve_receivers-logs refs (with_logs i log) (λ r m. h r (inr m))
    ∙ ap some (with_logs-append i log (receiver_logs i.file_id_by_path refs))

resolve_type_refs-logs :
    (refs : List DeferredTypeRef) (i : ProtoIndex)
    → ((ref : DeferredTypeRef) → In ref refs → HasPkg ref.type_name)
    → resolve_type_refs refs i ≡ some (with_logs i (type_logs i.file_id_by_path refs))
unfolding resolve_type_refs
resolve_type_refs-logs [] i h = ap some (with_logs_nil i)
resolve_type_refs-logs (ref ∷ refs) i h =
    let path = (ref.fset ref.type_name.pos).filename in
    let log = type_log (lookup path i.file_id_by_path) ref in
    ap (λ o. or_panic (type_ref_at o ref i) (resolve_type_refs refs)) (find_file_id-found path i)
    ∙ ap (λ r. or_panic r (resolve_type_refs refs))
        (type_step (lookup path i.file_id_by_path) ref i (h ref (inl refl)))
    ∙ resolve_type_refs-logs refs (with_logs i log) (λ r m. h r (inr m))
    ∙ ap some (with_logs-append i log (type_logs i.file_id_by_path refs))

-- Where every type has a package, resolving does not panic. It empties both lists, and the index
-- gains, after what was logged, one reference for each one that waited whose type stands in an
-- indexed file and that `AddReference` accepts, in their order, receivers first; no other field of
-- the index changes.
pub resolve_deferred_refs_lem :
    (p : Postponed)
    → ((ref : MethodReceiverRef) → In ref p.receiver_refs → HasPkg ref.type_name)
    → ((ref : DeferredTypeRef) → In ref p.type_refs → HasPkg ref.type_name)
    → resolve_deferred_refs p
      ≡ some (record {
        receiver_refs = [];
        type_refs = [];
        index = with_logs p.index (
            receiver_logs p.index.file_id_by_path p.receiver_refs
            ++ type_logs p.index.file_id_by_path p.type_refs);
      })
unfolding resolve_deferred_refs
resolve_deferred_refs_lem p h k =
    let logs = receiver_logs p.index.file_id_by_path p.receiver_refs in
    let finish : ProtoIndex → Option Postponed = λ i.
      or_panic (resolve_type_refs p.type_refs i)
        (λ j. some (record { receiver_refs = []; type_refs = []; index = j })) in
    ap (λ r. or_panic r finish) (resolve_receivers-logs p.receiver_refs p.index h)
    ∙ ap (λ r. or_panic r (λ j. some (record { receiver_refs = []; type_refs = []; index = j })))
        (resolve_type_refs-logs p.type_refs (with_logs p.index logs) k)
    ∙ ap (λ j. some (record { receiver_refs = []; type_refs = []; index = j }))
        (with_logs-append p.index logs (type_logs p.index.file_id_by_path p.type_refs))
