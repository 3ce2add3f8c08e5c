-- ===== src/Forest/Chain.antt =====
-- Every parent array, cyclic ones included, has a finite forest over its roots: the chain of parents
-- of an instance that reaches a root repeats nothing, so it is no longer than the array.
use askl_golang_indexer.Prelude.{
  ℕ, zero, suc, ◌≤◌, ◌<◌, ◌≡◌, refl, ap, ap₂, sym, subst, inl, inr, true, false, Option, none, some,
  List, [], ◌∷◌, arith, ◌==◌, ==_iff, if◌then◌else◌, length, All, mem, Distinct, Bool-cases,
}

-- Drops the occurrences of a number.
unfoldable pub drop_all : ℕ → List ℕ → List ℕ
drop_all n [] = []
drop_all n (x ∷ xs) = if x == n then drop_all n xs else x ∷ drop_all n xs

mem-drop_all : (y n : ℕ) (xs : List ℕ) → mem y xs ≡ false → mem y (drop_all n xs) ≡ false
unfolding drop_all
mem-drop_all y n [] h = refl
mem-drop_all y n (x ∷ xs) h = ground (arith, mem-drop_all y n xs)

Distinct-drop_all : (n : ℕ) (xs : List ℕ) → Distinct xs → Distinct (drop_all n xs)
unfolding drop_all
Distinct-drop_all n [] d = tt
Distinct-drop_all n (x ∷ xs) d = ground (arith, Distinct-drop_all n xs, mem-drop_all x n xs)

drop_all_absent : (n : ℕ) (xs : List ℕ) → mem n xs ≡ false → drop_all n xs ≡ xs
unfolding drop_all
drop_all_absent n [] h = refl
drop_all_absent n (x ∷ xs) h = ground (arith, drop_all_absent n xs)

length-drop_all : (n : ℕ) (xs : List ℕ) → Distinct xs → length xs ≤ suc (length (drop_all n xs))
unfolding drop_all
length-drop_all n [] d = omega arith
length-drop_all n (x ∷ xs) d = ground (arith, length-drop_all n xs, drop_all_absent n xs)

All-drop_all : (n : ℕ) (xs : List ℕ) → All (λ x. x < suc n) xs → All (λ x. x < n) (drop_all n xs)
unfolding drop_all
All-drop_all n [] h = tt
All-drop_all n (x ∷ xs) h = elim (Bool-cases (x == n)) [
  | inl e ↦ rw e (All-drop_all n xs h.1)
  | inr e ↦ rw e (ground arith, All-drop_all n xs h.1)
]

-- Distinct numbers below `n` are at most `n`.
pub pigeonhole : (n : ℕ) (xs : List ℕ) → Distinct xs → All (λ x. x < n) xs → length xs ≤ n
pigeonhole zero [] d h = omega arith
pigeonhole zero (x ∷ xs) d h = absurd (omega arith)
pigeonhole (suc n) xs d h = omega (
  arith,
  length-drop_all n xs d,
  pigeonhole n (drop_all n xs) (Distinct-drop_all n xs d) (All-drop_all n xs h),
)

module _ (parent : ℕ → Option ℕ) where
  -- The proper ancestors of `x`, nearest first, up to a root.
  abbrev pub Chain : ℕ → List ℕ → Type 0
  Chain x [] = parent x ≡ none
  Chain x (p ∷ ps) = (parent x ≡ some p) × Chain p ps

  pub Chain-unique : (x : ℕ) (ps qs : List ℕ) → Chain x ps → Chain x qs → ps ≡ qs
  Chain-unique x [] [] h k = refl
  Chain-unique x [] (q ∷ qs) h k = cc (h, k.0)
  Chain-unique x (p ∷ ps) [] h k = cc (h.0, k)
  Chain-unique x (p ∷ ps) (q ∷ qs) h k =
      let e : p ≡ q = ground (arith, h.0, k.0) in
      ap₂ ◌∷◌ e (Chain-unique p ps qs h.1 (subst (λ z. Chain z qs) (sym e) k.1))

  Chain-suffix :
      (x y : ℕ) (ps : List ℕ)
      → Chain x ps
      → mem y ps ≡ true
      → (qs : List ℕ) × Chain y qs × (length qs < length ps)
  Chain-suffix x y [] h m = absurd (ground arith)
  Chain-suffix x y (p ∷ ps) h m = elim (Bool-cases (p == y)) [
    | inl e ↦ (ps, subst (λ z. Chain z ps) ((==_iff p y).0 e) h.1, omega arith)
    | inr e ↦ let (qs, c, l) = Chain-suffix p y ps h.1 (ground arith) in (qs, c, omega arith)
  ]

  Chain-acyclic : (x : ℕ) (ps : List ℕ) → Chain x ps → mem x ps ≡ false
  Chain-acyclic x ps h = elim (Bool-cases (mem x ps)) [
    | inl m ↦
        let (qs, c, l) = Chain-suffix x x ps h m in
        absurd (omega (arith, ap length (Chain-unique x ps qs h c)))
    | inr m ↦ m
  ]

  Chain-Distinct : (x : ℕ) (ps : List ℕ) → Chain x ps → Distinct (x ∷ ps)
  Chain-Distinct x [] h = (refl, tt)
  Chain-Distinct x (p ∷ ps) h = (Chain-acyclic x (p ∷ ps) h, Chain-Distinct p ps h.1)

  module _ (n : ℕ) (bounded : (x p : ℕ) → parent x ≡ some p → p < n) where
    Chain-bounded : (x : ℕ) (ps : List ℕ) → Chain x ps → All (λ p. p < n) ps
    Chain-bounded x [] h = tt
    Chain-bounded x (p ∷ ps) h = (bounded x p h.0, Chain-bounded p ps h.1)

    pub Chain-length : (x : ℕ) (ps : List ℕ) → x < n → Chain x ps → length ps < n
    Chain-length x ps l h = pigeonhole n (x ∷ ps) (Chain-Distinct x ps h) (l, Chain-bounded x ps h)
