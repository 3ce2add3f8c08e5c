-- ===== src/Forest/Levels.antt =====
-- Depth, fold depth and disjointness in a numbered forest, in terms of the child lists.
use askl_golang_indexer.Prelude.{
  ℕ, suc, ◌+◌, ◌*◌, ◌≤◌, ◌<◌, ◌≡◌, ◌⊎◌, inl, inr, sym, true, false, List, arith, ◌==◌, ==_iff,
  Bool-cases, or-cases, mem, subst,
}
use askl_golang_indexer.Forest.Shape.{
  Shape, empty, node, tops, size, has, Unrepeated, Obeys, below_in,
}
use askl_golang_indexer.Forest.Marks.{entry, exit, depth, folds}
use askl_golang_indexer.Forest.Nested.{interval_bounds}
use askl_golang_indexer.Forest.Cover.{has-tops, has-kid}

-- Different instances of which neither is below the other have disjoint intervals.
pub disjoint :
    (f : Shape) (c x y : ℕ)
    → Unrepeated f
    → has x f ≡ true
    → has y f ≡ true
    → (x == y) ≡ false
    → below_in f x y ≡ false
    → below_in f y x ≡ false
    → (exit f c x < entry f c y) ⊎ (exit f c y < entry f c x)
disjoint empty c x y u h k n p q = absurd (ground arith)
disjoint (node z kids rest) c x y u h k n p q = ground (
  arith,
  disjoint kids (c + 1024) x y,
  disjoint rest (c + 2048 * suc (size kids)) x y,
  interval_bounds kids (c + 1024) x,
  interval_bounds kids (c + 1024) y,
  interval_bounds rest (c + 2048 * suc (size kids)) x,
  interval_bounds rest (c + 2048 * suc (size kids)) y,
  u.2 x,
  u.2 y,
)

module _ (step : ℕ → ℕ) where
  pub folds-le :
      (f : Shape) (l d y : ℕ)
      → ((x : ℕ) → step x ≤ 1)
      → has y f ≡ true
      → folds step f d y + l ≤ d + depth f l y
  folds-le empty l d y s h = absurd (ground arith)
  folds-le (node x kids rest) l d y s h =
      ground (arith, folds-le kids (suc l) (d + step x) y s, folds-le rest l d y s, s x)

  pub top_level :
      (f : Shape) (l d y : ℕ)
      → Unrepeated f
      → mem y (tops f) ≡ true
      → (depth f l y ≡ l) × (folds step f d y ≡ d)
  top_level empty l d y u m = absurd (ground arith)
  top_level (node x kids rest) l d y u m =
      ground (arith, top_level rest l d y u.4, has-tops rest y, u.2 y)

  module _ (kids : ℕ → List ℕ) where
    pub kid_level :
        (f : Shape) (l d p y : ℕ)
        → Obeys kids f
        → Unrepeated f
        → has p f ≡ true
        → mem y (kids p) ≡ true
        → (depth f l y ≡ suc (depth f l p)) × (folds step f d y ≡ folds step f d p + step p)
    kid_level empty l d p y o u h m = absurd (ground arith)
    kid_level (node z below rest) l d p y o u h m = elim (Bool-cases (z == p)) [
      | inl e ↦
          let in_tops : mem y (tops below) ≡ true =
            subst (λ ys. mem y ys ≡ true) (sym o.0)
              (subst (λ w. mem y (kids w) ≡ true) (sym ((==_iff z p).0 e)) m) in
          let z_is_p = (==_iff z p).0 e in
          ground (arith, top_level below (suc l) (d + step z) y u.3, has-tops below y)
      | inr e ↦ elim (or-cases (has p below) (has p rest) (ground arith)) [
        | inl b ↦ ground (
          arith,
          has-kid kids below p y o.1 b m,
          kid_level below (suc l) (d + step z) p y o.1 u.3 b m,
        )
        | inr r ↦
            ground (
              arith,
              has-kid kids rest p y o.2 r m,
              kid_level rest l d p y o.2 u.4 r m,
              u.2 p,
              u.2 y,
            )
      ]
    ]
