-- ===== src/RefPoints/Drain.antt =====
-- pkg/index/numbering.go, `placeBefore` in `numberRefs`: which refs one call places, and where.
use askl_golang_indexer.Prelude.{
  ℕ, zero, suc, ◌<◌, ◌≡◌, refl, ◌∙◌, ap, sym, subst, fun_ext, ◌⊎◌, inl, inr, Bool, true, false, not,
  ◌&&◌, List, [], ◌∷◌, arith, ◌==◌, ==_iff, length, length-set, set, All, mem, Distinct, Bool-cases,
  if◌then◌else◌,
}
use askl_golang_indexer.Prelude.Int.{ℤ, leb_ℤ}
use askl_golang_indexer.Proto.{SymbolInstance, SymbolRef}
use askl_golang_indexer.Parentage.Order.{Sorted}
use askl_golang_indexer.RefPoints.{ref_at, starts_before, place_ref, place_before}

pub ref_at-set :
    (refs : List SymbolRef) (x y : ℕ) (v : SymbolRef)
    → x < length refs
    → ref_at (set refs x v) y ≡ (if x == y then v else ref_at refs y)
ref_at-set [] x y v h = absurd (omega arith)
ref_at-set (i ∷ refs) zero zero v h = refl
ref_at-set (i ∷ refs) zero (suc y) v h = ground arith
ref_at-set (i ∷ refs) (suc x) zero v h = ground arith
ref_at-set (i ∷ refs) (suc x) (suc y) v h = ground (arith, ref_at-set refs x y v)

-- The refs that wait are sorted by their starts.
abbrev pub Waiting : List SymbolRef → List ℕ → Type 0
Waiting refs pending = Sorted (starts_before refs) pending × All (λ k. k < length refs) pending

module _ (insts : List SymbolInstance) (fallback : SymbolInstance) where
  abbrev pub placed : List ℕ → List SymbolRef → ℕ → SymbolRef
  placed stack refs k = place_ref insts fallback stack (ref_at refs k)

  start-place_ref :
      (stack : List ℕ) (ref : SymbolRef)
      → (place_ref insts fallback stack ref).from_offset_start ≡ ref.from_offset_start
  unfolding place_ref
  start-place_ref stack ref = refl

  -- What one call does, for a ref that waits and for one that does not.
  pub record Drained (start : ℤ) (flush : Bool) (stack pending : List ℕ) (refs : List SymbolRef)
      (pending' : List ℕ) (refs' : List SymbolRef) : Type 0 where
    pub same_length : length refs' ≡ length refs
    pub distinct : Distinct pending'
    pub sorted : Waiting refs' pending'
    pub waiting :
        (k : ℕ)
        → mem k pending' ≡ true
        → (mem k pending ≡ true)
          × (ref_at refs' k ≡ ref_at refs k)
          × (leb_ℤ start (ref_at refs k).from_offset_start ≡ true)
    pub drained :
        (k : ℕ)
        → mem k pending ≡ true
        → mem k pending' ≡ false
        → (ref_at refs' k ≡ placed stack refs k)
          × ((flush ≡ true) ⊎ (leb_ℤ start (ref_at refs k).from_offset_start ≡ false))
    pub untouched : (k : ℕ) → mem k pending ≡ false → ref_at refs' k ≡ ref_at refs k

  All-later :
      (start : ℤ) (refs : List SymbolRef) (k j : ℕ) (pending : List ℕ)
      → leb_ℤ start (ref_at refs k).from_offset_start ≡ true
      → All (λ y. starts_before refs y k ≡ false) pending
      → mem j pending ≡ true
      → leb_ℤ start (ref_at refs j).from_offset_start ≡ true
  unfolding starts_before
  All-later start refs k j [] l s m = absurd (ground arith)
  All-later start refs k j (y ∷ pending) l s m = elim (Bool-cases (y == j)) [
    | inl e ↦
        subst (λ z. leb_ℤ start (ref_at refs z).from_offset_start ≡ true) ((==_iff y j).0 e)
          (ground (arith, s.0))
    | inr e ↦ All-later start refs k j pending l s.1 (ground arith)
  ]

  stop_here :
      (start : ℤ) (stack : List ℕ) (k : ℕ) (pending : List ℕ) (refs : List SymbolRef)
      → Waiting refs (k ∷ pending)
      → Distinct (k ∷ pending)
      → leb_ℤ start (ref_at refs k).from_offset_start ≡ true
      → Drained start false stack (k ∷ pending) refs (k ∷ pending) refs
  stop_here start stack k pending refs w d l = record {
    same_length = refl;
    distinct = d;
    sorted = w;
    waiting = λ j m. (m, refl, at j (Bool-cases (k == j)) m);
    drained = λ j m n. cc (m, n);
    untouched = λ j m. refl;
  }
    where
      at :
          (j : ℕ)
          → ((k == j) ≡ true) ⊎ ((k == j) ≡ false)
          → mem j (k ∷ pending) ≡ true
          → leb_ℤ start (ref_at refs j).from_offset_start ≡ true
      at j (inl e) m =
          subst (λ z. leb_ℤ start (ref_at refs z).from_offset_start ≡ true) ((==_iff k j).0 e) l
      at j (inr e) m = All-later start refs k j pending l w.0.0 (ground arith)

  module _ (stack : List ℕ) (k : ℕ) (refs : List SymbolRef) (fits : k < length refs) where
    abbrev one : List SymbolRef
    one = set refs k (placed stack refs k)

    at_one : ref_at one k ≡ placed stack refs k
    at_one = ground (arith, ref_at-set refs k k (placed stack refs k))

    at_other : (j : ℕ) → (k == j) ≡ false → ref_at one j ≡ ref_at refs j
    at_other j n = ground (arith, ref_at-set refs k j (placed stack refs k))

    same_start : (j : ℕ) → (ref_at one j).from_offset_start ≡ (ref_at refs j).from_offset_start
    same_start j = elim (Bool-cases (k == j)) [
      | inl e ↦
          subst (λ z. (ref_at one z).from_offset_start ≡ (ref_at refs z).from_offset_start)
            ((==_iff k j).0 e)
            (ap (λ r. r.from_offset_start) at_one ∙ start-place_ref stack (ref_at refs k))
      | inr n ↦ ap (λ r. r.from_offset_start) (at_other j n)
    ]

    same_order : starts_before one ≡ starts_before refs
    unfolding starts_before
    same_order = fun_ext λ a. fun_ext λ b. rw (same_start a, same_start b)

    Waiting-one : (pending : List ℕ) → Waiting refs (k ∷ pending) → Waiting one pending
    Waiting-one pending w = (
      subst (λ less. Sorted less pending) (sym same_order) w.0.1,
      subst (λ n. All (λ j. j < n) pending) (sym (length-set refs k (placed stack refs k))) w.1.1,
    )

    place_one :
        (start : ℤ) (flush : Bool) (pending pending' : List ℕ) (refs' : List SymbolRef)
        → mem k pending ≡ false
        → (flush ≡ true) ⊎ (leb_ℤ start (ref_at refs k).from_offset_start ≡ false)
        → Drained start flush stack pending one pending' refs'
        → Drained start flush stack (k ∷ pending) refs pending' refs'
    place_one start flush pending pending' refs' fresh why r = record {
      same_length = r.same_length ∙ length-set refs k (placed stack refs k);
      distinct = r.distinct;
      sorted = r.sorted;
      waiting = λ j m. still j (r.waiting j m);
      drained = λ j m n. gone j (Bool-cases (k == j)) m n;
      untouched = λ j m. r.untouched j (ground arith) ∙ at_other j (ground arith);
    }
      where
        still :
            (j : ℕ)
            → (mem j pending ≡ true)
              × (ref_at refs' j ≡ ref_at one j)
              × (leb_ℤ start (ref_at one j).from_offset_start ≡ true)
            → (mem j (k ∷ pending) ≡ true)
              × (ref_at refs' j ≡ ref_at refs j)
              × (leb_ℤ start (ref_at refs j).from_offset_start ≡ true)
        still j (m, e, l) =
            let n : (k == j) ≡ false = ground arith in
            (ground arith, e ∙ at_other j n, rw same_start at l)

        gone :
            (j : ℕ)
            → ((k == j) ≡ true) ⊎ ((k == j) ≡ false)
            → mem j (k ∷ pending) ≡ true
            → mem j pending' ≡ false
            → (ref_at refs' j ≡ placed stack refs j)
              × ((flush ≡ true) ⊎ (leb_ℤ start (ref_at refs j).from_offset_start ≡ false))
        gone j (inl e) m n =
            subst
              (λ z.
                (ref_at refs' z ≡ placed stack refs z)
                × ((flush ≡ true) ⊎ (leb_ℤ start (ref_at refs z).from_offset_start ≡ false)))
              ((==_iff k j).0 e) (r.untouched k fresh ∙ at_one, why)
        gone j (inr e) m n =
            let (p, q) = r.drained j (ground arith) n in
            (
              p ∙ ap (place_ref insts fallback stack) (at_other j e),
              subst (λ s. (flush ≡ true) ⊎ (leb_ℤ start s ≡ false)) (same_start j) q,
            )

  pub place_before-Drained :
      (start : ℤ) (flush : Bool) (stack pending : List ℕ) (refs : List SymbolRef)
      → Waiting refs pending
      → Distinct pending
      → Drained start flush stack pending refs
          (place_before insts fallback start flush stack pending refs).0
          (place_before insts fallback start flush stack pending refs).1
  unfolding place_before
  place_before-Drained start flush stack [] refs w d = record {
    same_length = refl;
    distinct = tt;
    sorted = (tt, tt);
    waiting = λ k m. cc;
    drained = λ k m n. cc;
    untouched = λ k m. refl;
  }
  place_before-Drained start flush stack (k ∷ pending) refs w d =
      by_test flush (Bool-cases (not flush && leb_ℤ start (ref_at refs k).from_offset_start)) (
        place_before-Drained start flush stack pending (one stack k refs w.1.0)
          (Waiting-one stack k refs w.1.0 pending w) d.1)
    where
      by_test :
          (flush : Bool)
          → ((not flush && leb_ℤ start (ref_at refs k).from_offset_start) ≡ true)
            ⊎ ((not flush && leb_ℤ start (ref_at refs k).from_offset_start) ≡ false)
          → Drained start flush stack pending
              (one stack k refs w.1.0)
              (place_before insts fallback start flush stack pending (one stack k refs w.1.0)).0
              (place_before insts fallback start flush stack pending (one stack k refs w.1.0)).1
          → Drained start flush stack
              (k ∷ pending)
              refs
              (place_before insts fallback start flush stack (k ∷ pending) refs).0
              (place_before insts fallback start flush stack (k ∷ pending) refs).1
      by_test true c r = place_one stack k refs w.1.0 start true pending _ _ d.0 (inl refl) r
      by_test false (inl c) r = rw c (stop_here start stack k pending refs w d c)
      by_test false (inr c) r =
          rw c (place_one stack k refs w.1.0 start false pending _ _ d.0 (inr c) r)
