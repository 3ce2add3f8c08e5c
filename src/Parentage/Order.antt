-- ===== src/Parentage/Order.antt =====
-- The sorted index array: `sort.SliceStable` as it is used by pkg/index/numbering.go, and the laws
-- of the two relations on instances, the order and `contains`.
use askl_golang_indexer.Prelude.{
  ℕ, zero, suc, ◌+◌, ◌≤◌, ◌<◌, ◌≡◌, refl, Bool, true, false, ◌&&◌, ◌||◌, List, [], ◌∷◌, arith, ltb,
  leb, ◌==◌, length, All, mem, Distinct, Bool-cases, ◌⊎◌, inl, inr, ◌↔◌, ◌∙◌,
}
use askl_golang_indexer.Prelude.Int.{ℤ, ◌<ℤ◌, ◌≤ℤ◌}
use askl_golang_indexer.Proto.{SymbolInstance}
use askl_golang_indexer.Parentage.{
  at, insert_stable, slice_stable, indices, outermost_first, order_of, within,
}

-- No later element is less than an earlier one.
abbrev pub Sorted : (ℕ → ℕ → Bool) → List ℕ → Type 0
Sorted less [] = Unit
Sorted less (x ∷ xs) = All (λ y. less y x ≡ false) xs × Sorted less xs

module _ (less : ℕ → ℕ → Bool) where
  mem-insert_stable :
      (z x : ℕ) (ys : List ℕ) → mem z (insert_stable less x ys) ≡ (x == z || mem z ys)
  unfolding insert_stable
  mem-insert_stable z x [] = refl
  mem-insert_stable z x (y ∷ ys) = ground (arith, mem-insert_stable z x ys)

  -- Sorting keeps the elements,
  pub mem-slice_stable : (z : ℕ) (xs : List ℕ) → mem z (slice_stable less xs) ≡ mem z xs
  unfolding slice_stable
  mem-slice_stable z [] = refl
  mem-slice_stable z (x ∷ xs) =
      ground (arith, mem-slice_stable z xs, mem-insert_stable z x (slice_stable less xs))

  length-insert_stable : (x : ℕ) (ys : List ℕ) → length (insert_stable less x ys) ≡ suc (length ys)
  unfolding insert_stable
  length-insert_stable x [] = refl
  length-insert_stable x (y ∷ ys) = ground (arith, length-insert_stable x ys)

  -- their number,
  pub length-slice_stable : (xs : List ℕ) → length (slice_stable less xs) ≡ length xs
  unfolding slice_stable
  length-slice_stable [] = refl
  length-slice_stable (x ∷ xs) =
      omega (arith, length-slice_stable xs, length-insert_stable x (slice_stable less xs))

  Distinct-insert_stable :
      (x : ℕ) (ys : List ℕ) → mem x ys ≡ false → Distinct ys → Distinct (insert_stable less x ys)
  unfolding insert_stable
  Distinct-insert_stable x [] h d = (refl, tt)
  Distinct-insert_stable x (y ∷ ys) h d =
      ground (arith, Distinct-insert_stable x ys, mem-insert_stable y x ys)

  -- and that none is repeated.
  pub Distinct-slice_stable : (xs : List ℕ) → Distinct xs → Distinct (slice_stable less xs)
  unfolding slice_stable
  Distinct-slice_stable [] d = tt
  Distinct-slice_stable (x ∷ xs) d =
      Distinct-insert_stable x (slice_stable less xs) (ground (arith, mem-slice_stable x xs))
        (Distinct-slice_stable xs d.1)

module _ (less : ℕ → ℕ → Bool) (asym : (a b : ℕ) → less a b ≡ true → less b a ≡ false)
    (trans : (a b c : ℕ) → less b a ≡ false → less c b ≡ false → less c a ≡ false) where
  All-trans :
      (a b : ℕ) (xs : List ℕ)
      → less b a ≡ false
      → All (λ y. less y b ≡ false) xs
      → All (λ y. less y a ≡ false) xs
  All-trans a b [] h k = tt
  All-trans a b (x ∷ xs) h k = (trans a b x h k.0, All-trans a b xs h k.1)

  All-insert_stable :
      (a x : ℕ) (ys : List ℕ)
      → less x a ≡ false
      → All (λ y. less y a ≡ false) ys
      → All (λ y. less y a ≡ false) (insert_stable less x ys)
  unfolding insert_stable
  All-insert_stable a x [] h k = (h, tt)
  All-insert_stable a x (y ∷ ys) h k = elim (Bool-cases (less y x)) [
    | inl e ↦ rw e (k.0, All-insert_stable a x ys h k.1)
    | inr e ↦ rw e (h, k)
  ]

  Sorted-insert_stable :
      (x : ℕ) (ys : List ℕ) → Sorted less ys → Sorted less (insert_stable less x ys)
  unfolding insert_stable
  Sorted-insert_stable x [] s = (tt, tt)
  Sorted-insert_stable x (y ∷ ys) s = elim (Bool-cases (less y x)) [
    | inl e ↦ rw e (All-insert_stable y x ys (asym y x e) s.0, Sorted-insert_stable x ys s.1)
    | inr e ↦ rw e ((e, All-trans x y ys e s.0), s)
  ]

  pub Sorted-slice_stable : (xs : List ℕ) → Sorted less (slice_stable less xs)
  unfolding slice_stable
  Sorted-slice_stable [] = tt
  Sorted-slice_stable (x ∷ xs) =
      Sorted-insert_stable x (slice_stable less xs) (Sorted-slice_stable xs)

pub mem-indices : (x i n : ℕ) → mem x (indices i n) ≡ (leb i x && ltb x (i + n))
unfolding indices
mem-indices x i zero = ground arith
mem-indices x i (suc n) = ground (arith, mem-indices x (suc i) n)

pub Distinct-indices : (i n : ℕ) → Distinct (indices i n)
unfolding indices
Distinct-indices i zero = tt
Distinct-indices i (suc n) = (ground (arith, mem-indices i (suc i) n), Distinct-indices (suc i) n)

pub length-indices : (i n : ℕ) → length (indices i n) ≡ n
unfolding indices
length-indices i zero = refl
length-indices i (suc n) = omega (arith, length-indices (suc i) n)

-- The two relations read as linear facts about the ends of two ranges and their ranks.
abbrev pub NotLess : ℤ → ℤ → ℕ → ℤ → ℤ → ℕ → Type 0
NotLess sa ea ra sb eb rb =
    (sb <ℤ sa) ⊎ ((sa ≤ℤ sb) × (sb ≤ℤ sa) × ((ea <ℤ eb) ⊎ ((ea ≤ℤ eb) × (eb ≤ℤ ea) × (rb ≤ ra))))

abbrev pub Holds : ℤ → ℤ → ℕ → ℤ → ℤ → ℕ → Type 0
Holds sc ec rc sx ex rx = (sc ≤ℤ sx) × (ex ≤ℤ ec) × ((sc <ℤ sx) ⊎ (ex <ℤ ec) ⊎ (rc < rx))

abbrev pub Misses : ℤ → ℤ → ℕ → ℤ → ℤ → ℕ → Type 0
Misses sc ec rc sx ex rx =
    (sx <ℤ sc) ⊎ (ec <ℤ ex) ⊎ ((sc ≤ℤ sx) × (sx ≤ℤ sc) × (ec ≤ℤ ex) × (ex ≤ℤ ec) × (rx ≤ rc))

module _ (insts : List SymbolInstance) (rank : ℕ → ℕ) where
  abbrev pub Unless : ℕ → ℕ → Type 0
  Unless a b =
      NotLess (at insts a).start_offset (at insts a).end_offset (rank a) (at insts b).start_offset
        (at insts b).end_offset (rank b)

  abbrev pub Inside : ℕ → ℕ → Type 0
  Inside c x =
      Holds (at insts c).start_offset (at insts c).end_offset (rank c) (at insts x).start_offset
        (at insts x).end_offset (rank x)

  pub outermost_first_iff : (a b : ℕ) → (outermost_first insts rank a b ≡ false) ↔ Unless a b
  unfolding outermost_first
  outermost_first_iff a b = (λ h. ground arith, λ h. ground arith)

  pub within_iff : (c x : ℕ) → (within insts rank c x ≡ true) ↔ Inside c x
  unfolding within
  within_iff c x = (λ h. ground arith, λ h. ground arith)

  pub within-false :
      (c x : ℕ)
      → within insts rank c x ≡ false
      → Misses
          (at insts c).start_offset
          (at insts c).end_offset
          (rank c)
          (at insts x).start_offset
          (at insts x).end_offset
          (rank x)
  unfolding within
  within-false c x h = ground arith

  pub outermost_first_asym :
      (a b : ℕ) → outermost_first insts rank a b ≡ true → outermost_first insts rank b a ≡ false
  unfolding outermost_first
  outermost_first_asym a b h = ground arith

  pub outermost_first_irrefl : (a : ℕ) → outermost_first insts rank a a ≡ false
  unfolding outermost_first
  outermost_first_irrefl a = ground arith

  pub outermost_first_trans :
      (a b c : ℕ)
      → outermost_first insts rank b a ≡ false
      → outermost_first insts rank c b ≡ false
      → outermost_first insts rank c a ≡ false
  outermost_first_trans a b c h k =
      (outermost_first_iff c a).1
        (omega (arith, (outermost_first_iff b a).0 h, (outermost_first_iff c b).0 k))

  pub Sorted-order_of : Sorted (outermost_first insts rank) (order_of insts rank)
  unfolding order_of
  Sorted-order_of =
      Sorted-slice_stable (outermost_first insts rank) outermost_first_asym outermost_first_trans
        (indices 0 (length insts))

  pub Distinct-order_of : Distinct (order_of insts rank)
  unfolding order_of
  Distinct-order_of =
      Distinct-slice_stable (outermost_first insts rank) (indices 0 (length insts))
        (Distinct-indices 0 (length insts))

  pub mem-order_of : (x : ℕ) → mem x (order_of insts rank) ≡ ltb x (length insts)
  unfolding order_of
  mem-order_of x = ground (
    arith,
    mem-slice_stable (outermost_first insts rank) x (indices 0 (length insts)),
    mem-indices x 0 (length insts),
  )

  pub length-order_of : length (order_of insts rank) ≡ length insts
  unfolding order_of
  length-order_of =
      length-slice_stable (outermost_first insts rank) (indices 0 (length insts))
      ∙ length-indices 0 (length insts)

  -- A container stands strictly before what it contains.
  pub outermost_first-of-within :
      (p a : ℕ) → within insts rank p a ≡ true → outermost_first insts rank p a ≡ true
  unfolding within outermost_first
  outermost_first-of-within p a h = ground arith

  -- What the sweep pops for `a` is not missed: `a` contains whatever it contains from there on.
  pub within_takeover :
      (p a b : ℕ)
      → outermost_first insts rank a p ≡ false
      → outermost_first insts rank b a ≡ false
      → within insts rank p a ≡ false
      → within insts rank p b ≡ true
      → within insts rank a b ≡ true
  within_takeover p a b h k n m = (within_iff a b).1 (
      omega (
        arith,
        (outermost_first_iff a p).0 h,
        (outermost_first_iff b a).0 k,
        within-false p a n,
        (within_iff p b).0 m,
      ))

  pub within_trans :
      (a b c : ℕ)
      → within insts rank a b ≡ true
      → within insts rank b c ≡ true
      → within insts rank a c ≡ true
  within_trans a b c h k =
      (within_iff a c).1 (omega (arith, (within_iff a b).0 h, (within_iff b c).0 k))
