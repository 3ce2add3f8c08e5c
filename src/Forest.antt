-- ===== src/Forest.antt =====
-- pkg/index/numbering.go, `foldStep` and `numberForest`: one preorder walk that numbers the tree.
-- `walk` is the inner loop with its stack of frames, on fuel; `number_roots` is the outer loop.
pub mod Shape
pub mod Visit
pub mod Marks
pub mod Nested
pub mod Chain
pub mod Grow
pub mod Cover
pub mod Count
pub mod Levels
use askl_golang_indexer.Prelude.{
  ℕ, zero, suc, ◌+◌, ◌*◌, ◌%◌, ◌^◌, Option, none, some, List, [], ◌∷◌, if◌then◌else◌, length,
  get_elem?, set,
}
use askl_golang_indexer.Proto.{SymbolInstance}
use askl_golang_indexer.Parentage.{at}

abbrev pub dfs_stride : ℕ
dfs_stride = 1024

-- int64 and int32 addition on bit patterns.
abbrev pub add64 : ℕ → ℕ → ℕ
add64 a b = (a + b) % 2 ^ 64

abbrev pub add32 : ℕ → ℕ → ℕ
add32 a b = (a + b) % 2 ^ 32

abbrev pub fold_step : SymbolInstance → ℕ
fold_step inst = if inst.folded then 1 else 0

-- `insts[k].DfsEnter, insts[k].DfsExit = 0, 0`, and so for the depths
abbrev pub reset : SymbolInstance → SymbolInstance
reset inst = record inst { dfs_enter = 0; dfs_exit = 0; nesting_level = 0; fold_depth = 0 }

-- The variables of `numberForest`.
pub record Counted : Type 0 where
  pub insts : List SymbolInstance
  pub counter : ℕ
  pub numbered : ℕ

abbrev pub enter : ℕ → ℕ → ℕ → Counted → Counted
enter x level fold s =
    let c = add64 s.counter dfs_stride in
    record {
      insts =
          set s.insts x
            (record (at s.insts x) { dfs_enter = c; nesting_level = level; fold_depth = fold });
      counter = c;
      numbered = s.numbered + 1;
    }

abbrev pub enter_child : ℕ → ℕ → Counted → Counted
enter_child node c s =
    enter c (add32 (at s.insts node).nesting_level 1)
      (add32 (at s.insts node).fold_depth (fold_step (at s.insts node))) s

abbrev pub leave : ℕ → Counted → Counted
leave x s =
    let c = add64 s.counter dfs_stride in
    record s { insts = set s.insts x (record (at s.insts x) { dfs_exit = c }); counter = c }

-- `for len(walk) > 0`: a frame is a node and the position of its next child. `none` means that the
-- fuel ran out.
unfoldable pub walk : (ℕ → List ℕ) → ℕ → List (ℕ × ℕ) → Counted → Option Counted
walk kids fuel [] s = some s
walk kids zero (frame ∷ frames) s = none
walk kids (suc fuel) ((node, next) ∷ frames) s = elim (get_elem? (kids node) next) [
  | some c ↦ walk kids fuel ((c, 0) ∷ (node, suc next) ∷ frames) (enter_child node c s)
  | none ↦ walk kids fuel frames (leave node s)
]

unfoldable pub number_roots : (ℕ → List ℕ) → ℕ → List ℕ → Counted → Option Counted
unfolding walk
number_roots kids fuel [] s = some s
number_roots kids fuel (r ∷ roots) s = elim (walk kids fuel ((r, 0) ∷ []) (enter r 0 0 s)) [
  | none ↦ none
  | some s' ↦ number_roots kids fuel roots s'
]

unfoldable pub number_forest : List SymbolInstance → (ℕ → List ℕ) → List ℕ → Option Counted
unfolding number_roots
number_forest insts kids roots =
    number_roots kids (2 * length insts) roots (record { insts = insts; counter = 0; numbered = 0 })
