-- ===== src/Forest/Count.antt =====
-- How many instances a forest reaches: all of them exactly if its size is their number.
use askl_golang_indexer.Prelude.{
  ℕ, ◌≤◌, ◌<◌, ◌≡◌, refl, ◌∙◌, sym, ◌⊎◌, inl, inr, true, false, List, [], ◌∷◌, ◌++◌, arith, ◌==◌,
  length, length-append, All, All-of_mem, mem, mem-append, Distinct, Bool-cases,
}
use askl_golang_indexer.Parentage.{indices}
use askl_golang_indexer.Parentage.Order.{mem-indices, Distinct-indices, length-indices}
use askl_golang_indexer.Forest.Shape.{Shape, empty, node, size, has, Unrepeated}
use askl_golang_indexer.Forest.Marks.{InRange}
use askl_golang_indexer.Forest.Chain.{pigeonhole, drop_all}

nodes : Shape → List ℕ
nodes empty = []
nodes (node x kids rest) = x ∷ (nodes kids ++ nodes rest)

mem-nodes : (y : ℕ) (f : Shape) → mem y (nodes f) ≡ has y f
unfolding nodes
mem-nodes y empty = refl
mem-nodes y (node x kids rest) =
    ground (arith, mem-append y (nodes kids) (nodes rest), mem-nodes y kids, mem-nodes y rest)

length-nodes : (f : Shape) → length (nodes f) ≡ size f
unfolding nodes
length-nodes empty = refl
length-nodes (node x kids rest) =
    omega (arith, length-append (nodes kids) (nodes rest), length-nodes kids, length-nodes rest)

Distinct-append :
    (xs ys : List ℕ)
    → Distinct xs
    → Distinct ys
    → ((y : ℕ) → mem y xs ≡ true → mem y ys ≡ false)
    → Distinct (xs ++ ys)
Distinct-append [] ys d e h = e
Distinct-append (x ∷ xs) ys d e h = (
  ground (arith, mem-append x xs ys, h x),
  Distinct-append xs ys d.1 e (λ y m. h y (ground arith)),
)

Distinct-nodes : (f : Shape) → Unrepeated f → Distinct (nodes f)
unfolding nodes
Distinct-nodes empty u = tt
Distinct-nodes (node x kids rest) u = (
  ground (arith, mem-append x (nodes kids) (nodes rest), mem-nodes x kids, mem-nodes x rest, u.0),
  Distinct-append (nodes kids) (nodes rest) (Distinct-nodes kids u.3) (Distinct-nodes rest u.4)
      (λ y m. ground (arith, mem-nodes y kids, mem-nodes y rest, u.2 y)),
)

module _ (f : Shape) (n : ℕ) (u : Unrepeated f) (b : (y : ℕ) → has y f ≡ true → y < n) where
  nodes-bounded : All (λ x. x < n) (nodes f)
  nodes-bounded = All-of_mem (λ x. x < n) (nodes f) (λ y m. b y (sym (mem-nodes y f) ∙ m))

  pub size-le : size f ≤ n
  size-le = omega (arith, length-nodes f, pigeonhole n (nodes f) (Distinct-nodes f u) nodes-bounded)

  -- A forest of full size misses nothing.
  pub has-of-size : size f ≡ n → (y : ℕ) → y < n → has y f ≡ true
  has-of-size e y l = elim (Bool-cases (has y f)) [
    | inl h ↦ h
    | inr h ↦ absurd (
        omega (
          arith,
          length-nodes f,
          pigeonhole n (y ∷ nodes f) (mem-nodes y f ∙ h, Distinct-nodes f u) (l, nodes-bounded),
        ))
  ]

pub InRange-of-has : (f : Shape) (n : ℕ) → ((y : ℕ) → has y f ≡ true → y < n) → InRange f n
InRange-of-has empty n h = tt
InRange-of-has (node x kids rest) n h = (
  h x (ground arith),
  InRange-of-has kids n (λ y m. h y (ground arith)),
  InRange-of-has rest n (λ y m. h y (ground arith)),
)

mem-drop_other :
    (y x : ℕ) (ys : List ℕ) → (y == x) ≡ false → mem y ys ≡ true → mem y (drop_all x ys) ≡ true
unfolding drop_all
mem-drop_other y x [] n m = m
mem-drop_other y x (z ∷ ys) n m = ground (arith, mem-drop_other y x ys)

length-drop_le : (x : ℕ) (ys : List ℕ) → length (drop_all x ys) ≤ length ys
unfolding drop_all
length-drop_le x [] = omega arith
length-drop_le x (z ∷ ys) = ground (arith, length-drop_le x ys)

length-drop_lt : (x : ℕ) (ys : List ℕ) → mem x ys ≡ true → length (drop_all x ys) < length ys
unfolding drop_all
length-drop_lt x [] m = absurd (ground arith)
length-drop_lt x (z ∷ ys) m = ground (arith, length-drop_lt x ys, length-drop_le x ys)

-- Distinct members of a list are at most as many as it has.
length-le_of_subset :
    (xs ys : List ℕ)
    → Distinct xs
    → ((y : ℕ) → mem y xs ≡ true → mem y ys ≡ true)
    → length xs ≤ length ys
length-le_of_subset [] ys d h = omega arith
length-le_of_subset (x ∷ xs) ys d h = omega (
  arith,
  length-drop_lt x ys (h x (ground arith)),
  length-le_of_subset xs (drop_all x ys) d.1
      (λ y m. mem-drop_other y x ys (unequal y m (Bool-cases (y == x))) (h y (ground arith))),
)
  where
    unequal : (y : ℕ) → mem y xs ≡ true → ((y == x) ≡ true) ⊎ ((y == x) ≡ false) → (y == x) ≡ false
    unequal y m (inl e) = ground arith
    unequal y m (inr e) = e

pub size-of-has : (f : Shape) (n : ℕ) → ((y : ℕ) → y < n → has y f ≡ true) → n ≤ size f
size-of-has f n h = omega (
  arith,
  length-nodes f,
  length-indices 0 n,
  length-le_of_subset (indices 0 n) (nodes f) (Distinct-indices 0 n)
      (λ y m. mem-nodes y f ∙ h y (ground (arith, mem-indices y 0 n))),
)
