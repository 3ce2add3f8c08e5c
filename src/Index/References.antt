-- ===== src/Index/References.antt =====
-- pkg/index/proto_index.go: AddReference and ResolveReferences.
use askl_golang_indexer.Prelude.{
  ℕ, Bool, false, not, ◌&&◌, ◌||◌, Option, none, some, List, [], ◌∷◌, ◌++◌, if◌then◌else◌, Text,
  text_beq, lookup, text_eq, nat_eq,
}
use askl_golang_indexer.Prelude.Int.{ℤ, pos, ltb_ℤ, to_int32}
use askl_golang_indexer.Prelude.Texts.{bytes, has_prefix}
use askl_golang_indexer.Proto.{Span, SymbolRef, new_ref}
use askl_golang_indexer.Index.State.{
  ProtoIndex, Position, ByteSpan, ReferenceLog, RefDedupKey, dedup_key_beq, file_name_key_eq,
}
use askl_golang_indexer.Index.Files.{
  Outcome, done, failed, invalid_start, invalid_to, file_of, append_ref, modify_object,
}
use askl_golang_indexer.Index.Symbols.{out_of_range, offsets_fit_int32}

-- `token.Position.IsValid` of go/token: the line is positive
abbrev pub is_valid : Position → Bool
is_valid p = ltb_ℤ (pos 0) p.line

unfoldable pub add_reference :
    ℕ
    → Position
    → Text
    → Position
    → Position
    → Option ByteSpan
    → ProtoIndex
    → Outcome (Unit {0}) × ProtoIndex
add_reference from to to_name start end full i =
    if not (is_valid start) && text_beq start.filename []
    then (failed invalid_start, i)
    else if not (is_valid to)
    then (failed invalid_to, i)
    else (
      done tt,
      record i {
        references_log =
            i.references_log
            ++ (record {
              from_file = from;
              to = to;
              to_name = to_name;
              start = start;
              end = end;
              full = full;
            })
              ∷ [];
      },
    )

abbrev pub is_c_reference : ReferenceLog → Bool
is_c_reference ref = has_prefix ref.to_name (bytes "C.")

unfoldable pub full_span : Option ByteSpan → ℤ → ℤ → Option Span
unfolding offsets_fit_int32
full_span none start end = none
full_span (some full) start end =
    if not (offsets_fit_int32 full.start full.end)
    then none
    else if ltb_ℤ start full.start || ltb_ℤ full.end end
    then none
    else some (record { start = to_int32 full.start; end = to_int32 full.end })

abbrev pub ref_full_span : ReferenceLog → Option Span
ref_full_span ref = full_span ref.full ref.start.offset ref.end.offset

-- `_, ok := seen[dedupKey]`
unfoldable pub is_seen : RefDedupKey → List RefDedupKey → Bool
is_seen key [] = false
is_seen key (k ∷ seen) = dedup_key_beq k key || is_seen key seen

-- The error path reads `fromFile.FilesystemPath`, so it panics where the file is unknown.
pub data Resolved : Type 0 where
  all_resolved : Resolved
  strict_failure : Resolved
  nil_dereference : Resolved

abbrev pub dedup_key : ReferenceLog → ℕ → RefDedupKey
dedup_key ref symbol_id = record {
  to_symbol_id = symbol_id;
  from_file = ref.from_file;
  start = to_int32 ref.start.offset;
  end = to_int32 ref.end.offset;
}

abbrev pub ref_of_log : ReferenceLog → ℕ → SymbolRef
ref_of_log ref symbol_id =
    new_ref symbol_id (to_int32 ref.start.offset) (to_int32 ref.end.offset) (ref_full_span ref)

abbrev pub target : ReferenceLog → ProtoIndex → Option ℕ
target ref i =
    lookup (record { file_path = ref.to.filename; name = ref.to_name }) i.symbol_by_file_and_name

-- The loop body after the target is found: what has been seen, and the index.
unfoldable pub place_reference :
    ReferenceLog → ℕ → List RefDedupKey → ProtoIndex → List RefDedupKey × ProtoIndex
unfolding is_seen full_span
place_reference ref symbol_id seen i = elim (file_of i ref.from_file) [
  | none ↦ (seen, i)
  | some (p, o) ↦
      let key = dedup_key ref symbol_id in
      if out_of_range ref.start.offset
      then (seen, i)
      else if out_of_range ref.end.offset
      then (seen, i)
      else if is_seen key seen
      then (seen, i)
      else (key ∷ seen, modify_object p (append_ref (ref_of_log ref symbol_id)) i)
]

unfoldable pub resolve_loop :
    List ReferenceLog → List RefDedupKey → ProtoIndex → Resolved × ProtoIndex
unfolding place_reference
resolve_loop [] seen i = (all_resolved, record i { references_log = [] })
resolve_loop (ref ∷ log) seen i = elim (target ref i) [
  | some symbol_id ↦
      let placed = place_reference ref symbol_id seen i in resolve_loop log placed.0 placed.1
  | none ↦
      let rest = resolve_loop log seen i in
      if is_c_reference ref then rest else (elim (file_of i ref.from_file) [
        | none ↦ (nil_dereference, i)
        | some file ↦ (strict_failure, i)
      ])
]

unfoldable pub resolve_references : ProtoIndex → Resolved × ProtoIndex
unfolding resolve_loop
resolve_references i = resolve_loop i.references_log [] i
