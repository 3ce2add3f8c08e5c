-- ===== src/Parentage/Sweep.antt =====
-- The stack of the sweeps in pkg/index/numbering.go always holds what a search has to find: to look
-- through the stack is to look through all that has been visited, latest first.
use mathlib.Core.List.{reverse_aux}
use askl_golang_indexer.Prelude.{
  ℕ, ◌≡◌, refl, Bool, true, false, Option, none, some, List, [], ◌∷◌, arith, ◌==◌, ==_iff, All,
  All-map, mem, Distinct, find, Bool-cases, inl, inr, ◌∙◌, sym, ap, subst, All-zip, All-mem,
  or-cases, ◌||◌,
}
use askl_golang_indexer.Parentage.{pop, record_top, sweep}
use askl_golang_indexer.Parentage.Order.{Sorted}

module _ (less holds : ℕ → ℕ → Bool) where
  -- `a` passes the test whenever an element that `a` pops does.
  unfoldable pub Yields : (ℕ → Bool) → ℕ → Type 0
  Yields t a = (p : ℕ) → less a p ≡ false → holds p a ≡ false → t p ≡ true → t a ≡ true

  pub record Tracks (stack seen : List ℕ) : Type 1 where
    pub sub : (P : ℕ → Type 0) → All P seen → All P stack
    pub finds : (t : ℕ → Bool) → All (Yields t) seen → find t stack ≡ find t seen

  pub Tracks-nil : Tracks [] []
  Tracks-nil = record { sub = λ P h. h; finds = λ t h. refl }

  pub All-pop : (P : ℕ → Type 0) (a : ℕ) (stack : List ℕ) → All P stack → All P (pop holds a stack)
  unfolding pop
  All-pop P a [] h = h
  All-pop P a (p ∷ stack) h = elim (Bool-cases (holds p a)) [
    | inl e ↦ rw e h
    | inr e ↦ rw e (All-pop P a stack h.1)
  ]

  pub find-pop :
      (t : ℕ → Bool) (a : ℕ) (stack : List ℕ)
      → Yields t a
      → All (λ p. less a p ≡ false) stack
      → t a ≡ false
      → find t (pop holds a stack) ≡ find t stack
  unfolding pop Yields
  find-pop t a [] y h n = refl
  find-pop t a (p ∷ stack) y h n = ground (arith, y p, find-pop t a stack y h.1 n)

  -- One round of the sweep: what does not hold `a` is popped, and `a` is pushed.
  pub Tracks-push :
      (a : ℕ) (stack seen : List ℕ)
      → All (λ p. less a p ≡ false) seen
      → Tracks stack seen
      → Tracks (a ∷ pop holds a stack) (a ∷ seen)
  Tracks-push a stack seen h k = record {
    sub = λ P all. (all.0, All-pop P a stack (k.sub P all.1));
    finds = λ t all. elim (Bool-cases (t a)) [
      | inl e ↦ rw e
      | inr e ↦
          rw e (find-pop t a stack all.0 (k.sub (λ p. less a p ≡ false) h) e ∙ k.finds t all.1)
    ];
  }

  record_top-pop :
      (a : ℕ) (stack : List ℕ) (derived : ℕ → Option ℕ)
      → derived a ≡ none
      → record_top (pop holds a stack) a derived a ≡ find (λ p. holds p a) stack
  unfolding pop
  record_top-pop a [] derived h = ground arith
  record_top-pop a (p ∷ stack) derived h = ground (arith, record_top-pop a stack derived h)

  record_top_other :
      (a x : ℕ) (stack : List ℕ) (derived : ℕ → Option ℕ)
      → (a == x) ≡ false
      → record_top stack a derived x ≡ derived x
  record_top_other a x [] derived h = refl
  record_top_other a x (p ∷ stack) derived h = ground arith

  pub sweep_other :
      (order stack : List ℕ) (derived : ℕ → Option ℕ) (x : ℕ)
      → mem x order ≡ false
      → sweep holds order stack derived x ≡ derived x
  unfolding sweep
  sweep_other [] stack derived x m = refl
  sweep_other (a ∷ order) stack derived x m =
      let stack' = pop holds a stack in
      sweep_other order (a ∷ stack') (record_top stack' a derived) x (ground arith)
      ∙ record_top_other a x stack' derived (ground arith)

  pub find_skip :
      (t : ℕ → Bool) (rest seen : List ℕ)
      → All (λ y. t y ≡ false) rest
      → find t (reverse_aux rest seen) ≡ find t seen
  find_skip t [] seen h = refl
  find_skip t (y ∷ rest) seen h = find_skip t rest (y ∷ seen) h.1 ∙ ground arith

  module _ (before : (p a : ℕ) → holds p a ≡ true → less p a ≡ true)
      (takeover : (p a b : ℕ)
        → less a p ≡ false
        → less b a ≡ false
        → holds p a ≡ false
        → holds p b ≡ true
        → holds a b ≡ true)
      (irrefl : (a : ℕ) → less a a ≡ false) where
    All-Yields :
        (x : ℕ) (seen : List ℕ)
        → All (λ y. less x y ≡ false) seen
        → All (Yields (λ p. holds p x)) seen
    unfolding Yields
    All-Yields x [] h = tt
    All-Yields x (a ∷ seen) h = (λ p l n t. takeover p a x l h.0 n t, All-Yields x seen h.1)

    none_later :
        (x : ℕ) (rest : List ℕ)
        → All (λ y. less y x ≡ false) rest
        → All (λ y. holds y x ≡ false) rest
    none_later x rest h = All-map (λ y n. ground (arith, before y x)) rest h

    find_self :
        (a : ℕ) (rest seen : List ℕ)
        → All (λ y. less y a ≡ false) rest
        → find (λ p. holds p a) (reverse_aux rest (a ∷ seen)) ≡ find (λ p. holds p a) seen
    find_self a rest seen h =
        find_skip (λ p. holds p a) rest (a ∷ seen) (none_later a rest h)
        ∙ ground (arith, before a a, irrefl a)

    at_self :
        (a : ℕ) (order stack seen : List ℕ) (derived : ℕ → Option ℕ)
        → Tracks stack seen
        → All (λ y. less y a ≡ false) order
        → All (λ y. less a y ≡ false) seen
        → mem a order ≡ false
        → derived a ≡ none
        → sweep holds (a ∷ order) stack derived a
          ≡ find (λ p. holds p a) (reverse_aux order (a ∷ seen))
    unfolding sweep
    at_self a order stack seen derived k s later m e =
        let stack' = pop holds a stack in
        sweep_other order (a ∷ stack') (record_top stack' a derived) a m
        ∙ record_top-pop a stack derived e
        ∙ k.finds (λ p. holds p a) (All-Yields a seen later)
        ∙ sym (find_self a order seen s)

    -- The parent that the sweep derives for `x` is the latest holder of `x` in the whole order.
    pub sweep-eq-find :
        (order stack seen : List ℕ) (derived : ℕ → Option ℕ) (x : ℕ)
        → Tracks stack seen
        → Sorted less order
        → Distinct order
        → All (λ a. All (λ y. less a y ≡ false) seen) order
        → derived x ≡ none
        → mem x order ≡ true
        → sweep holds order stack derived x ≡ find (λ p. holds p x) (reverse_aux order seen)
    unfolding sweep
    sweep-eq-find [] stack seen derived x k s d later e m = absurd (ground arith)
    sweep-eq-find (a ∷ order) stack seen derived x k s d later e m = elim (Bool-cases (a == x)) [
      | inl same ↦
          let p : a ≡ x = (==_iff a x).0 same in
          subst
            (λ z.
              sweep holds (a ∷ order) stack derived z
              ≡ find (λ p. holds p z) (reverse_aux order (a ∷ seen)))
            p (at_self a order stack seen derived k s.0 later.0 d.0 (ap derived p ∙ e))
      | inr other ↦
          sweep-eq-find order (a ∷ pop holds a stack) (a ∷ seen)
            (record_top (pop holds a stack) a derived) x (Tracks-push a stack seen later.0 k) s.1
            d.1 (All-zip _ _ order s.0 later.1)
            (record_top_other a x (pop holds a stack) derived other ∙ e) (ground arith)
    ]

module _ (less : ℕ → ℕ → Bool) where
  -- What a search through a sorted order, latest first, finds.
  abbrev pub Latest : (ℕ → Bool) → (ℕ → Bool) → Option ℕ → Type 0
  Latest t among none = (c : ℕ) → among c ≡ true → t c ≡ false
  Latest t among (some p) =
      (among p ≡ true) × (t p ≡ true) × ((c : ℕ) → among c ≡ true → t c ≡ true → less p c ≡ false)

  pub Latest-nil : (t : ℕ → Bool) → Latest t (λ c. mem c []) none
  Latest-nil t c m = cc

  Latest-cons :
      (irrefl : (a : ℕ) → less a a ≡ false) (t : ℕ → Bool) (a : ℕ) (seen : List ℕ)
      → All (λ y. less a y ≡ false) seen
      → Latest t (λ c. mem c seen) (find t seen)
      → Latest t (λ c. mem c (a ∷ seen)) (find t (a ∷ seen))
  Latest-cons irrefl t a seen h k = elim (Bool-cases (t a)) [
    | inl e ↦ rw e (
      ground arith,
      e,
      λ c m q. elim (or-cases (a == c) (mem c seen) m) [
        | inl same ↦ subst (λ z. less a z ≡ false) ((==_iff a c).0 same) (irrefl a)
        | inr old ↦ All-mem (λ y. less a y ≡ false) seen c h old
      ],
    )
    | inr e ↦ rw e (older (find t seen) k e)
  ]
    where
      older :
          (o : Option ℕ)
          → Latest t (λ c. mem c seen) o
          → t a ≡ false
          → Latest t (λ c. mem c (a ∷ seen)) o
      older none k e = λ c m. ground (arith, k c)
      older (some p) k e = (ground (arith, k.0), k.1, λ c m q. ground (arith, k.2 c))

  pub Latest-find :
      (irrefl : (a : ℕ) → less a a ≡ false) (t : ℕ → Bool) (order seen : List ℕ)
      → Sorted less order
      → All (λ a. All (λ y. less a y ≡ false) seen) order
      → Latest t (λ c. mem c seen) (find t seen)
      → Latest t (λ c. mem c (reverse_aux order seen)) (find t (reverse_aux order seen))
  Latest-find irrefl t [] seen s later k = k
  Latest-find irrefl t (a ∷ order) seen s later k =
      Latest-find irrefl t order (a ∷ seen) s.1 (All-zip _ _ order s.0 later.1)
        (Latest-cons irrefl t a seen later.0 k)

pub mem-reverse_aux : (x : ℕ) (xs ys : List ℕ) → mem x (reverse_aux xs ys) ≡ (mem x xs || mem x ys)
mem-reverse_aux x [] ys = refl
mem-reverse_aux x (y ∷ xs) ys = ground (arith, mem-reverse_aux x xs (y ∷ ys))
