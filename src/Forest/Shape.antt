-- ===== src/Forest/Shape.antt =====
-- The forest that a parent array stands for: the specification of the walk in
-- pkg/index/numbering.go, `numberForest`. `node x kids rest` is the tree at `x` and its siblings.
use askl_golang_indexer.Prelude.{
  ℕ, suc, ◌+◌, ◌≡◌, Bool, true, false, ◌||◌, List, [], ◌∷◌, ◌==◌, if◌then◌else◌,
}

pub data Shape : Type 0 where
  empty : Shape
  node : ℕ → Shape → Shape → Shape

abbrev pub tops : Shape → List ℕ
tops empty = []
tops (node x kids rest) = x ∷ tops rest

abbrev pub size : Shape → ℕ
size empty = 0
size (node x kids rest) = suc (size kids + size rest)

abbrev pub has : ℕ → Shape → Bool
has y empty = false
has y (node x kids rest) = x == y || (has y kids || has y rest)

-- No instance stands twice in the forest.
abbrev pub Unrepeated : Shape → Type 0
Unrepeated empty = Unit
Unrepeated (node x kids rest) =
    (has x kids ≡ false)
    × (has x rest ≡ false)
    × ((y : ℕ) → has y kids ≡ true → has y rest ≡ false)
    × Unrepeated kids
    × Unrepeated rest

-- The children in the forest are those in the child lists.
abbrev pub Obeys : (ℕ → List ℕ) → Shape → Type 0
Obeys kids empty = Unit
Obeys kids (node x below rest) = (tops below ≡ kids x) × Obeys kids below × Obeys kids rest

-- `y` stands somewhere below `x`.
abbrev pub below_in : Shape → ℕ → ℕ → Bool
below_in empty x y = false
below_in (node z kids rest) x y =
    if z == x then has y kids else (below_in kids x y || below_in rest x y)
