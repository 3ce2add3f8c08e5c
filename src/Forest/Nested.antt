-- ===== src/Forest/Nested.antt =====
-- The intervals of a numbered forest are nested exactly as the forest is.
use askl_golang_indexer.Prelude.{ℕ, suc, ◌+◌, ◌*◌, ◌≤◌, ◌<◌, ◌≡◌, ◌↔◌, true, arith}
use askl_golang_indexer.Forest.Shape.{Shape, empty, node, size, has, Unrepeated, below_in}
use askl_golang_indexer.Forest.Marks.{entry, exit, depth}

-- Each interval lies in the room of its forest, and is at least a stride wide.
pub interval_bounds :
    (f : Shape) (c y : ℕ)
    → has y f ≡ true
    → (c + 1024 ≤ entry f c y)
      × (entry f c y + 1024 ≤ exit f c y)
      × (exit f c y ≤ c + 2048 * size f)
interval_bounds empty c y h = absurd (ground arith)
interval_bounds (node x kids rest) c y h =
    ground (
      arith,
      interval_bounds kids (c + 1024) y,
      interval_bounds rest (c + 2048 * suc (size kids)) y,
    )

pub depth-le :
    (f : Shape) (l y : ℕ) → has y f ≡ true → (l ≤ depth f l y) × (depth f l y < l + size f)
depth-le empty l y h = absurd (ground arith)
depth-le (node x kids rest) l y h = ground (arith, depth-le kids (suc l) y, depth-le rest l y)

pub Below-has : (f : Shape) (x y : ℕ) → below_in f x y ≡ true → (has x f ≡ true) × (has y f ≡ true)
Below-has empty x y h = absurd (ground arith)
Below-has (node z kids rest) x y h = ground (arith, Below-has kids x y, Below-has rest x y)

abbrev Inside : Shape → ℕ → ℕ → ℕ → Type 0
Inside f c x y = (entry f c x < entry f c y) × (entry f c y < exit f c x)

pub nested :
    (f : Shape) (c x y : ℕ)
    → Unrepeated f
    → has x f ≡ true
    → has y f ≡ true
    → Inside f c x y ↔ (below_in f x y ≡ true)
nested empty c x y u h k = absurd (ground arith)
nested (node z kids rest) c x y u h k = ground (
  arith,
  nested kids (c + 1024) x y,
  nested rest (c + 2048 * suc (size kids)) x y,
  interval_bounds kids (c + 1024) x,
  interval_bounds kids (c + 1024) y,
  interval_bounds rest (c + 2048 * suc (size kids)) x,
  interval_bounds rest (c + 2048 * suc (size kids)) y,
  Below-has kids x y,
  Below-has rest x y,
  u.2 x,
  u.2 y,
)
