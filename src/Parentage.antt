-- ===== src/Parentage.antt =====
-- pkg/index/numbering.go, the containment tree of an object: `kindRank`, `contains`, the order and
-- the parentage sweep of `numberObjectTree`, the stated parents and `childLists`.
-- A slice of indices is a list, an array that is indexed by instance is a function with `update`,
-- -1 in a parent array is `none`, and the reads `insts[k]` go through `at`.
pub mod Order
pub mod Sweep
pub mod Kids
use askl_golang_indexer.Prelude.{
  ℕ, zero, suc, Bool, true, false, not, ◌&&◌, Option, none, some, List, [], ◌∷◌, ◌++◌, ltb, ◌==◌,
  if◌then◌else◌, length, get_or, Map, lookup, nat_eq,
}
use askl_golang_indexer.Prelude.Int.{ltb_ℤ, eqb_ℤ}
use askl_golang_indexer.Proto.{
  SymbolType, file, module_type, directory, SymbolInstance, no_instance,
}

pub kind_rank : SymbolType → ℕ
kind_rank module_type = 0
kind_rank directory = 1
kind_rank file = 2
kind_rank _ = 3

unfoldable pub contains : SymbolInstance → SymbolInstance → ℕ → ℕ → Bool
contains c x c_rank x_rank =
    if ltb_ℤ x.start_offset c.start_offset
    then false
    else if ltb_ℤ c.end_offset x.end_offset
    then false
    else if eqb_ℤ c.start_offset x.start_offset && eqb_ℤ c.end_offset x.end_offset
    then ltb c_rank x_rank
    else true

-- `sort.SliceStable`: the sorted order in which equal elements keep their places.
unfoldable pub insert_stable : (ℕ → ℕ → Bool) → ℕ → List ℕ → List ℕ
insert_stable less x [] = x ∷ []
insert_stable less x (y ∷ ys) = if less y x then y ∷ insert_stable less x ys else x ∷ y ∷ ys

unfoldable pub slice_stable : (ℕ → ℕ → Bool) → List ℕ → List ℕ
unfolding insert_stable
slice_stable less [] = []
slice_stable less (x ∷ xs) = insert_stable less x (slice_stable less xs)

-- `for k := range order { order[k] = k }`
unfoldable pub indices : ℕ → ℕ → List ℕ
indices i zero = []
indices i (suc n) = i ∷ indices (suc i) n

abbrev pub update {ℓ} : {A : Type ℓ} → (ℕ → A) → ℕ → A → ℕ → A
update f k v j = if k == j then v else f j

abbrev pub at : List SymbolInstance → ℕ → SymbolInstance
at insts k = get_or insts k no_instance

-- The rank array: an instance with no symbol ranks as an ordinary declaration.
unfoldable pub rank_of : Map ℕ ℕ → List SymbolInstance → ℕ → ℕ
rank_of ranks insts k = elim (lookup (at insts k).symbol_local_id ranks) [ none ↦ 3 | some r ↦ r ]

module _ (insts : List SymbolInstance) (rank : ℕ → ℕ) where
  -- the comparison of `sort.SliceStable(order, …)`
  unfoldable pub outermost_first : ℕ → ℕ → Bool
  outermost_first a b =
      if not (eqb_ℤ (at insts a).start_offset (at insts b).start_offset)
      then ltb_ℤ (at insts a).start_offset (at insts b).start_offset
      else if not (eqb_ℤ (at insts a).end_offset (at insts b).end_offset)
      then ltb_ℤ (at insts b).end_offset (at insts a).end_offset
      else ltb (rank a) (rank b)

  unfoldable pub order_of : List ℕ
  unfolding slice_stable indices outermost_first
  order_of = slice_stable outermost_first (indices 0 (length insts))

  unfoldable pub within : ℕ → ℕ → Bool
  unfolding contains
  within p a = contains (at insts p) (at insts a) (rank p) (rank a)

-- `if len(stack) > 0 { derived[a] = stack[len(stack)-1] }`
abbrev pub record_top : List ℕ → ℕ → (ℕ → Option ℕ) → ℕ → Option ℕ
record_top [] a derived = derived
record_top (p ∷ stack) a derived = update derived a (some p)

module _ (holds : ℕ → ℕ → Bool) where
  -- `for len(stack) > 0 { … stack = stack[:len(stack)-1] }`; the top of the stack is the head
  unfoldable pub pop : ℕ → List ℕ → List ℕ
  pop a [] = []
  pop a (p ∷ stack) = if holds p a then p ∷ stack else pop a stack

  -- the parentage sweep
  unfoldable pub sweep : List ℕ → List ℕ → (ℕ → Option ℕ) → ℕ → Option ℕ
  unfolding pop
  sweep [] stack derived = derived
  sweep (a ∷ order) stack derived =
      sweep order (a ∷ pop a stack) (record_top (pop a stack) a derived)

-- `for child, p := range stated`
unfoldable pub apply_stated : ℕ → Map ℕ ℕ → (ℕ → Option ℕ) → ℕ → Option ℕ
apply_stated n [] parent = parent
apply_stated n ((child, p) ∷ stated) parent =
    apply_stated n stated
      (if ltb child n && ltb p n && not (p == child) then update parent child (some p) else parent)

unfoldable pub child_loop : (ℕ → Option ℕ) → List ℕ → (ℕ → List ℕ) → List ℕ → (ℕ → List ℕ) × List ℕ
child_loop parent [] kids roots = (kids, roots)
child_loop parent (a ∷ order) kids roots = elim (parent a) [
  | none ↦ child_loop parent order kids (roots ++ a ∷ [])
  | some p ↦ child_loop parent order (update kids p (kids p ++ a ∷ [])) roots
]

unfoldable pub child_lists : (ℕ → Option ℕ) → List ℕ → (ℕ → List ℕ) × List ℕ
unfolding child_loop
child_lists parent order = child_loop parent order (λ _. []) []
