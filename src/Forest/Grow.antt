-- ===== src/Forest/Grow.antt =====
-- The forest over the roots of a parent array, for any array.
use mathlib.Core.List.{append_assoc}
use askl_golang_indexer.Prelude.{
  ℕ, zero, suc, ◌+◌, ◌<◌, ◌≡◌, refl, ap, sym, subst, ◌⊎◌, inl, inr, Bool, true, false, Option, some,
  List, [], ◌∷◌, ◌++◌, arith, ◌==◌, ==_iff, length, length-append, All, All-mem, mem, Distinct,
  Bool-cases,
}
use askl_golang_indexer.Forest.Shape.{Shape, empty, node, tops, has, Unrepeated, Obeys}
use askl_golang_indexer.Forest.Chain.{Chain, Chain-unique, Chain-length}

-- The trees at `xs`, cut off at a depth.
pub grow : (ℕ → List ℕ) → ℕ → List ℕ → Shape
grow kids zero xs = empty
grow kids (suc f) [] = empty
grow kids (suc f) (x ∷ xs) = node x (grow kids f (kids x)) (grow kids (suc f) xs)

append_cancel :
    (qs rs path : List ℕ) (x z : ℕ)
    → length qs ≡ length rs
    → qs ++ x ∷ path ≡ rs ++ z ∷ path
    → x ≡ z
append_cancel [] [] path x z l e = ground arith
append_cancel [] (r ∷ rs) path x z l e = absurd (omega arith)
append_cancel (q ∷ qs) [] path x z l e = absurd (omega arith)
append_cancel (q ∷ qs) (r ∷ rs) path x z l e =
    append_cancel qs rs path x z (omega arith) (ground arith)

module _ (parent : ℕ → Option ℕ) (n : ℕ) (bounded : (x p : ℕ) → parent x ≡ some p → p < n)
    (kids : ℕ → List ℕ)
    (kids_sound : (x y : ℕ) → mem y (kids x) ≡ true → (parent y ≡ some x) × (y < n))
    (kids-Distinct : (x : ℕ) → Distinct (kids x)) where
  -- Siblings, whose ancestors are `path`.
  abbrev pub Siblings : List ℕ → List ℕ → Type 0
  Siblings path xs = All (λ x. Chain parent x path × (x < n)) xs

  Siblings-below :
      (x : ℕ) (path ys : List ℕ)
      → Chain parent x path
      → ((y : ℕ) → mem y ys ≡ true → mem y (kids x) ≡ true)
      → Siblings (x ∷ path) ys
  Siblings-below x path [] c m = tt
  Siblings-below x path (y ∷ ys) c m =
      let (p, l) = kids_sound x y (m y (ground arith)) in
      (((p, c), l), Siblings-below x path ys c (λ z k. m z (ground arith)))

  Siblings-kids : (x : ℕ) (path : List ℕ) → Chain parent x path → Siblings (x ∷ path) (kids x)
  Siblings-kids x path c = Siblings-below x path (kids x) c (λ y m. m)

  -- The depth is enough: nothing is cut off.
  pub grow-whole :
      (f : ℕ) (xs path : List ℕ)
      → f + length path ≡ n
      → Siblings path xs
      → (tops (grow kids f xs) ≡ xs) × Obeys kids (grow kids f xs)
  unfolding grow
  grow-whole zero [] path e s = (refl, tt)
  grow-whole zero (x ∷ xs) path e s =
      absurd (omega (arith, Chain-length parent n bounded x path s.0.1 s.0.0))
  grow-whole (suc f) [] path e s = (refl, tt)
  grow-whole (suc f) (x ∷ xs) path e s =
      let (t, o) = grow-whole f (kids x) (x ∷ path) (omega arith) (Siblings-kids x path s.0.0) in
      let (t', o') = grow-whole (suc f) xs path e s.1 in (ap (◌∷◌ x) t', (t, o, o'))

  -- An instance of the forest is a top, or has one of them among its ancestors.
  abbrev Placed : ℕ → List ℕ → List ℕ → Type 0
  Placed y xs path =
      (z : ℕ) × (mem z xs ≡ true) × ((y ≡ z) ⊎ ((qs : List ℕ) × Chain parent y (qs ++ z ∷ path)))

  deeper :
      (y x : ℕ) (path : List ℕ)
      → Chain parent x path
      → Placed y (kids x) (x ∷ path)
      → (qs : List ℕ) × Chain parent y (qs ++ x ∷ path)
  deeper y x path c (z, m, inl e) =
      ([], (subst (λ w. parent w ≡ some x) (sym e) (kids_sound x z m).0, c))
  deeper y x path c (z, m, inr (qs, d)) =
      (qs ++ z ∷ [], subst (Chain parent y) (sym (append_assoc qs (z ∷ []) (x ∷ path))) d)

  pub placed :
      (f : ℕ) (xs path : List ℕ) (y : ℕ)
      → Siblings path xs
      → has y (grow kids f xs) ≡ true
      → Placed y xs path
  unfolding grow
  placed zero xs path y s h = absurd (ground arith)
  placed (suc f) [] path y s h = absurd (ground arith)
  placed (suc f) (x ∷ xs) path y s h = elim (Bool-cases (x == y)) [
    | inl e ↦ (x, ground arith, inl (sym ((==_iff x y).0 e)))
    | inr e ↦ elim (Bool-cases (has y (grow kids f (kids x)))) [
      | inl below ↦
          let c = s.0.0 in
          (
            x,
            ground arith,
            inr (deeper y x path c (placed f (kids x) (x ∷ path) y (Siblings-kids x path c) below)),
          )
      | inr beside ↦
          let (z, m, w) = placed (suc f) xs path y s.1 (ground arith) in (z, ground arith, w)
    ]
  ]

  not_above_itself :
      (y : ℕ) (path qs : List ℕ) (z : ℕ) → Chain parent y path → Chain parent y (qs ++ z ∷ path) → ⊥
  not_above_itself y path qs z c d = absurd (
      omega (
        arith,
        ap length (Chain-unique parent y path (qs ++ z ∷ path) c d),
        length-append qs (z ∷ path),
      ))

  below_other :
      (f : ℕ) (x y : ℕ) (path : List ℕ)
      → Chain parent x path
      → has y (grow kids f (kids x)) ≡ true
      → (qs : List ℕ) × Chain parent y (qs ++ x ∷ path)
  below_other f x y path c h =
      deeper y x path c (placed f (kids x) (x ∷ path) y (Siblings-kids x path c) h)

  -- What stands below `x` is no sibling of `x`, and stands below none of them.
  apart :
      (x y : ℕ) (xs path : List ℕ)
      → Siblings path xs
      → mem x xs ≡ false
      → (qs : List ℕ) × Chain parent y (qs ++ x ∷ path)
      → Placed y xs path
      → ⊥
  apart x y xs path s d (qs, c) (z, m, inl e) =
      not_above_itself y path qs x
        (subst (λ w. Chain parent w path) (sym e)
          (All-mem (λ w. Chain parent w path × (w < n)) xs z s m).0)
        c
  apart x y xs path s d (qs, c) (z, m, inr (rs, c')) =
      let same = Chain-unique parent y (qs ++ x ∷ path) (rs ++ z ∷ path) c c' in
      let l : length qs ≡ length rs =
        omega (arith, ap length same, length-append qs (x ∷ path), length-append rs (z ∷ path)) in
      let e = append_cancel qs rs path x z l same in absurd (ground arith)

  not_placed :
      (x : ℕ) (xs path : List ℕ) → Chain parent x path → mem x xs ≡ false → Placed x xs path → ⊥
  not_placed x xs path c d (z, m, inl e) = absurd (ground arith)
  not_placed x xs path c d (z, m, inr (qs, c')) = not_above_itself x path qs z c c'

  refute : (b : Bool) → (b ≡ true → ⊥) → b ≡ false
  refute true h = absurd (h refl)
  refute false h = refl

  pub grow-Unrepeated :
      (f : ℕ) (xs path : List ℕ) → Siblings path xs → Distinct xs → Unrepeated (grow kids f xs)
  unfolding grow
  grow-Unrepeated zero xs path s d = tt
  grow-Unrepeated (suc f) [] path s d = tt
  grow-Unrepeated (suc f) (x ∷ xs) path s d =
      let c = s.0.0 in
      (
        refute _
            (λ h. let (qs, c') = below_other f x x path c h in not_above_itself x path qs x c c'),
        refute _ (λ h. not_placed x xs path c d.0 (placed (suc f) xs path x s.1 h)),
        λ y h. refute _ (λ k.
            apart x y xs path s.1 d.0 (below_other f x y path c h)
              (placed (suc f) xs path y s.1 k)),
        grow-Unrepeated f (kids x) (x ∷ path) (Siblings-kids x path c) (kids-Distinct x),
        grow-Unrepeated (suc f) xs path s.1 d.1,
      )
