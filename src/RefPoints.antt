-- ===== src/RefPoints.antt =====
-- pkg/index/numbering.go, `numberRefs`: every reference becomes a point inside its owner.
-- The refs are visited through `refOrder`; the part of it that `ri` has not reached is `pending`.
pub mod Drain
pub mod Owner
use askl_golang_indexer.Prelude.{
  ℕ, Bool, true, false, not, ◌&&◌, Option, none, some, List, [], ◌∷◌, if◌then◌else◌, length, get_or,
  set, find,
}
use askl_golang_indexer.Prelude.Int.{ℤ, pos, ltb_ℤ, leb_ℤ}
use askl_golang_indexer.Proto.{SymbolInstance, SymbolRef, no_ref}
use askl_golang_indexer.Parentage.{at, slice_stable, indices, pop, within}
use askl_golang_indexer.Forest.{add64, add32, fold_step}

abbrev pub ref_at : List SymbolRef → ℕ → SymbolRef
ref_at refs k = get_or refs k no_ref

-- `c.StartOffset <= ref.FromOffsetStart && ref.FromOffsetEnd <= c.EndOffset`
unfoldable pub covers : SymbolInstance → SymbolRef → Bool
covers c ref = leb_ℤ c.start_offset ref.from_offset_start && leb_ℤ ref.from_offset_end c.end_offset

unfoldable pub starts_before : List SymbolRef → ℕ → ℕ → Bool
starts_before refs a b = ltb_ℤ (ref_at refs a).from_offset_start (ref_at refs b).from_offset_start

unfoldable pub ref_order : List SymbolRef → List ℕ
unfolding slice_stable indices starts_before
ref_order refs = slice_stable (starts_before refs) (indices 0 (length refs))

-- the writes to a ref, once its owner is found
abbrev pub place_at : SymbolInstance → SymbolRef → SymbolRef
place_at o ref = record ref {
  dfs_enter = add64 o.dfs_enter 1;
  nesting_level = add32 o.nesting_level 1;
  fold_depth = add32 o.fold_depth (fold_step o);
}

module _ (insts : List SymbolInstance) (fallback : SymbolInstance) where
  abbrev pub owner_or_fallback : Option ℕ → SymbolInstance
  owner_or_fallback none = fallback
  owner_or_fallback (some k) = at insts k

  -- `for k := len(stack) - 1; k >= 0; k--`
  unfoldable pub place_ref : List ℕ → SymbolRef → SymbolRef
  unfolding covers
  place_ref stack ref = place_at (owner_or_fallback (find (λ k. covers (at insts k) ref) stack)) ref

  -- `placeBefore(start, flush)`: the refs that are left, and all refs after the writes
  unfoldable pub place_before :
      ℤ → Bool → List ℕ → List ℕ → List SymbolRef → List ℕ × List SymbolRef
  unfolding place_ref
  place_before start flush stack [] refs = ([], refs)
  place_before start flush stack (k ∷ pending) refs =
      if not flush && leb_ℤ start (ref_at refs k).from_offset_start
      then (k ∷ pending, refs)
      else place_before start flush stack pending (set refs k (place_ref stack (ref_at refs k)))

  -- `if len(stack) > 0 { placeBefore(insts[a].StartOffset, false) }`
  abbrev pub drain : ℤ → List ℕ → List ℕ × List SymbolRef → List ℕ × List SymbolRef
  drain start [] (pending, refs) = (pending, refs)
  drain start (p ∷ stack) (pending, refs) = place_before start false (p ∷ stack) pending refs

  unfoldable pub ref_sweep :
      (ℕ → ℕ → Bool) → List ℕ → List ℕ → List ℕ × List SymbolRef → List SymbolRef
  unfolding pop place_before
  ref_sweep holds [] stack (pending, refs) = (place_before (pos 0) true stack pending refs).1
  ref_sweep holds (a ∷ order) stack left =
      ref_sweep holds order (a ∷ pop holds a stack) (drain (at insts a).start_offset stack left)

unfoldable pub number_refs :
    List SymbolRef → List SymbolInstance → List ℕ → (ℕ → ℕ) → List ℕ → List SymbolRef
unfolding ref_sweep ref_order within
number_refs [] insts order rank roots = []
number_refs (ref ∷ refs) insts order rank [] = ref ∷ refs
number_refs (ref ∷ refs) insts order rank (r ∷ roots) =
    ref_sweep insts (at insts r) (within insts rank) order [] (ref_order (ref ∷ refs), ref ∷ refs)
