-- ===== src/RefPoints/Owner.antt =====
-- pkg/index/numbering.go, `numberRefs`: the interleaved sweep gives each ref the owner that a search
-- through all instances would, innermost first.
use mathlib.Core.List.{reverse_aux, reverse}
use askl_golang_indexer.Prelude.{
  ℕ, ◌<◌, ◌≡◌, refl, ◌∙◌, ap, sym, subst, ◌⊎◌, inl, inr, Bool, true, false, List, [], ◌∷◌, arith,
  ltb, length, find, All, All-map, All-zip, All-of_mem, mem, Distinct, Bool-cases,
}
use askl_golang_indexer.Prelude.Int.{ℤ, leb_ℤ, pos, ◌≤ℤ◌, ◌<ℤ◌}
use askl_golang_indexer.Proto.{SymbolInstance, SymbolRef}
use askl_golang_indexer.Parentage.{at, outermost_first, within, pop, indices}
use askl_golang_indexer.Parentage.Order.{
  Sorted, outermost_first_iff, within-false, mem-slice_stable, Sorted-slice_stable,
  Distinct-slice_stable, mem-indices, Distinct-indices,
}
use askl_golang_indexer.Parentage.Sweep.{Yields, find-pop, find_skip, All-pop}
use askl_golang_indexer.RefPoints.{
  ref_at, covers, place_ref, place_before, ref_sweep, ref_order, number_refs, starts_before,
}
use askl_golang_indexer.RefPoints.Drain.{placed, Waiting, Drained, place_before-Drained}

covers_iff_true :
    (c : SymbolInstance) (r : SymbolRef)
    → covers c r ≡ true
    → (c.start_offset ≤ℤ r.from_offset_start) × (r.from_offset_end ≤ℤ c.end_offset)
unfolding covers
covers_iff_true c r h = ground arith

covers_of :
    (c : SymbolInstance) (r : SymbolRef)
    → c.start_offset ≤ℤ r.from_offset_start
    → r.from_offset_end ≤ℤ c.end_offset
    → covers c r ≡ true
unfolding covers
covers_of c r h k = ground arith

leb_ℤ_true : (a b : ℤ) → leb_ℤ a b ≡ true → a ≤ℤ b
leb_ℤ_true a b h = ground arith

leb_ℤ_false : (a b : ℤ) → leb_ℤ a b ≡ false → b <ℤ a
leb_ℤ_false a b h = ground arith

module _ (insts : List SymbolInstance) (rank : ℕ → ℕ) where
  abbrev less : ℕ → ℕ → Bool
  less = outermost_first insts rank

  abbrev holds : ℕ → ℕ → Bool
  holds = within insts rank

  abbrev pub covering : SymbolRef → ℕ → Bool
  covering r p = covers (at insts p) r

  covers_takeover :
      (r : SymbolRef) (a : ℕ)
      → leb_ℤ (at insts a).start_offset r.from_offset_start ≡ true
      → Yields less holds (covering r) a
  unfolding Yields
  covers_takeover r a l p before miss c =
      covers_of (at insts a) r (leb_ℤ_true (at insts a).start_offset r.from_offset_start l) (
        omega (
          arith,
          within-false insts rank p a miss,
          (outermost_first_iff insts rank a p).0 before,
          covers_iff_true (at insts p) r c,
        ))

  not_covers :
      (r : SymbolRef) (a b : ℕ)
      → leb_ℤ (at insts a).start_offset r.from_offset_start ≡ false
      → less b a ≡ false
      → covers (at insts b) r ≡ false
  not_covers r a b l k = elim (Bool-cases (covers (at insts b) r)) [
    | inl c ↦ absurd (
        omega (
          arith,
          leb_ℤ_false (at insts a).start_offset r.from_offset_start l,
          (outermost_first_iff insts rank b a).0 k,
          covers_iff_true (at insts b) r c,
        ))
    | inr c ↦ c
  ]

  -- Where a ref starts before an instance, neither that nor a later instance covers it.
  none_cover :
      (r : SymbolRef) (a : ℕ) (order seen : List ℕ)
      → leb_ℤ (at insts a).start_offset r.from_offset_start ≡ false
      → All (λ y. less y a ≡ false) order
      → less a a ≡ false
      → find (covering r) (reverse_aux order (a ∷ seen)) ≡ find (covering r) seen
  none_cover r a order seen l s i =
      find_skip less holds (covering r) order (a ∷ seen)
        (All-map (λ y k. not_covers r a y l k) order s)
      ∙ rw (not_covers r a a l i) refl

  module _ (fallback : SymbolInstance) (orig : List SymbolRef) where
    -- The ref as it ends, if `visited` is all that has been visited, latest first.
    abbrev pub owned : List ℕ → ℕ → SymbolRef
    owned visited k = placed insts fallback visited orig k

    owned_eq :
        (xs ys : List ℕ) (k : ℕ)
        → find (covering (ref_at orig k)) xs ≡ find (covering (ref_at orig k)) ys
        → owned xs k ≡ owned ys k
    unfolding place_ref
    owned_eq xs ys k e = rw e

    -- Before an instance is visited. Only the first one is visited with an empty stack.
    record Going (order stack seen pending : List ℕ) (refs : List SymbolRef) : Type 1 where
      sub : (P : ℕ → Type 0) → All P seen → All P stack
      finds :
          (k : ℕ)
          → mem k pending ≡ true
          → find (covering (ref_at orig k)) stack ≡ find (covering (ref_at orig k)) seen
      same_length : length refs ≡ length orig
      waits : (k : ℕ) → mem k pending ≡ true → ref_at refs k ≡ ref_at orig k
      settled :
          (k : ℕ)
          → k < length orig
          → mem k pending ≡ false
          → ref_at refs k ≡ owned (reverse_aux order seen) k
      waiting : Waiting refs pending
      distinct : Distinct pending

    push_finds :
        (a : ℕ) (stack seen : List ℕ) (r : SymbolRef)
        → All (λ p. less a p ≡ false) stack
        → leb_ℤ (at insts a).start_offset r.from_offset_start ≡ true
        → find (covering r) stack ≡ find (covering r) seen
        → find (covering r) (a ∷ pop holds a stack) ≡ find (covering r) (a ∷ seen)
    push_finds a stack seen r all l e = elim (Bool-cases (covering r a)) [
      | inl c ↦ rw c
      | inr c ↦ rw c (find-pop less holds (covering r) a stack (covers_takeover r a l) all c ∙ e)
    ]

    push_sub :
        (a : ℕ) (stack seen : List ℕ)
        → ((P : ℕ → Type 0) → All P seen → All P stack)
        → (P : ℕ → Type 0) → All P (a ∷ seen)
        → All P (a ∷ pop holds a stack)
    push_sub a stack seen sub P all = (all.0, All-pop less holds P a stack (sub P all.1))

    -- A round with an empty stack drains nothing.
    first_round :
        (a : ℕ) (order pending : List ℕ) (refs : List SymbolRef)
        → Going (a ∷ order) [] [] pending refs
        → Going order (a ∷ []) (a ∷ []) pending refs
    first_round a order pending refs g = record {
      sub = λ P h. h;
      finds = λ k m. refl;
      same_length = g.same_length;
      waits = g.waits;
      settled = g.settled;
      waiting = g.waiting;
      distinct = g.distinct;
    }

    next_round :
        (a : ℕ) (order stack seen pending pending' : List ℕ) (refs refs' : List SymbolRef)
        → All (λ y. less y a ≡ false) order
        → less a a ≡ false
        → All (λ y. less a y ≡ false) seen
        → Going (a ∷ order) stack seen pending refs
        → Drained insts fallback (at insts a).start_offset false stack pending refs pending' refs'
        → Going order (a ∷ pop holds a stack) (a ∷ seen) pending' refs'
    next_round a order stack seen pending pending' refs refs' s i later g d = record {
      sub = push_sub a stack seen g.sub;
      finds = λ k m.
          let (old, same, l) = d.waiting k m in
          push_finds a stack seen (ref_at orig k) (g.sub (λ p. less a p ≡ false) later)
            (subst (λ r. leb_ℤ (at insts a).start_offset r.from_offset_start ≡ true) (g.waits k old)
              l)
            (g.finds k old);
      same_length = d.same_length ∙ g.same_length;
      waits = λ k m. let (old, same, l) = d.waiting k m in same ∙ g.waits k old;
      settled = λ k l n. elim (Bool-cases (mem k pending)) [
        | inl m ↦
            let (e, why) = d.drained k m n in
            e
            ∙ ap (place_ref insts fallback stack) (g.waits k m)
            ∙ owned_eq stack (reverse_aux order (a ∷ seen)) k (
                g.finds k m
                ∙ sym (none_cover (ref_at orig k) a order seen (starts_below k m why) s i))
        | inr m ↦ d.untouched k m ∙ g.settled k l m
      ];
      waiting = d.sorted;
      distinct = d.distinct;
    }
      where
        starts_below :
            (k : ℕ)
            → mem k pending ≡ true
            → (false ≡ true)
              ⊎ (leb_ℤ (at insts a).start_offset (ref_at refs k).from_offset_start ≡ false)
            → leb_ℤ (at insts a).start_offset (ref_at orig k).from_offset_start ≡ false
        starts_below k m (inl e) = cc
        starts_below k m (inr l) =
            subst (λ r. leb_ℤ (at insts a).start_offset r.from_offset_start ≡ false) (g.waits k m) l

    flush_empties :
        (stack pending : List ℕ) (refs : List SymbolRef)
        → (place_before insts fallback (pos 0) true stack pending refs).0 ≡ []
    unfolding place_before
    flush_empties stack [] refs = refl
    flush_empties stack (k ∷ pending) refs = flush_empties stack pending _

    abbrev Settled : List ℕ → List SymbolRef → Type 0
    Settled visited refs =
        (length refs ≡ length orig) × ((k : ℕ) → k < length orig → ref_at refs k ≡ owned visited k)

    -- The last call places what is left.
    last_round :
        (stack seen pending : List ℕ) (refs : List SymbolRef)
        → Going [] stack seen pending refs
        → Settled seen (place_before insts fallback (pos 0) true stack pending refs).1
    last_round stack seen pending refs g = (
      d.same_length ∙ g.same_length,
      λ k l. elim (Bool-cases (mem k pending)) [
        | inl m ↦
            (d.drained k m (rw (flush_empties stack pending refs) refl)).0
            ∙ ap (place_ref insts fallback stack) (g.waits k m)
            ∙ owned_eq stack seen k (g.finds k m)
        | inr m ↦ d.untouched k m ∙ g.settled k l m
      ],
    )
      where
        d :
            Drained insts fallback
              (pos 0)
              true
              stack
              pending
              refs
              (place_before insts fallback (pos 0) true stack pending refs).0
              (place_before insts fallback (pos 0) true stack pending refs).1
        d = place_before-Drained insts fallback (pos 0) true stack pending refs g.waiting g.distinct

    ref_sweep-Settled :
        (order stack seen pending : List ℕ) (refs : List SymbolRef)
        → ((a : ℕ) → less a a ≡ false)
        → (stack ≡ [] → seen ≡ [])
        → Sorted less order
        → All (λ a. All (λ y. less a y ≡ false) seen) order
        → Going order stack seen pending refs
        → Settled
            (reverse_aux order seen)
            (ref_sweep insts fallback holds order stack (pending, refs))
    unfolding ref_sweep
    ref_sweep-Settled [] stack seen pending refs i b s later g =
        last_round stack seen pending refs g
    ref_sweep-Settled (a ∷ order) [] seen pending refs i b s later g =
        unfold pop in
        subst
          (λ v.
            Settled (reverse_aux order (a ∷ v))
              (ref_sweep insts fallback holds order (a ∷ []) (pending, refs)))
          (sym (b refl))
          (ref_sweep-Settled order (a ∷ []) (a ∷ []) pending refs i (λ e. cc) s.1
            (All-zip _ _ order s.0 (All-map (λ y t. tt) order s.0))
            (first_round a order pending refs
              (subst (λ v. Going (a ∷ order) [] v pending refs) (b refl) g)))
    ref_sweep-Settled (a ∷ order) (p ∷ stack) seen pending refs i b s later g =
        let r =
          place_before insts fallback (at insts a).start_offset false (p ∷ stack) pending refs in
        ref_sweep-Settled order (a ∷ pop holds a (p ∷ stack)) (a ∷ seen) r.0 r.1 i (λ e. cc) s.1
          (All-zip _ _ order s.0 later.1)
          (next_round a order (p ∷ stack) seen pending r.0 refs r.1 s.0 (i a) later.0 g (
            place_before-Drained insts fallback (at insts a).start_offset false (p ∷ stack) pending
              refs g.waiting g.distinct))

  mem-ref_order : (refs : List SymbolRef) (k : ℕ) → mem k (ref_order refs) ≡ ltb k (length refs)
  unfolding ref_order
  mem-ref_order refs k =
      mem-slice_stable (starts_before refs) k (indices 0 (length refs))
      ∙ mem-indices k 0 (length refs)
      ∙ ground arith

  starts_asym :
      (refs : List SymbolRef) (a b : ℕ)
      → starts_before refs a b ≡ true
      → starts_before refs b a ≡ false
  unfolding starts_before
  starts_asym refs a b h = ground arith

  starts_trans :
      (refs : List SymbolRef) (a b c : ℕ)
      → starts_before refs b a ≡ false
      → starts_before refs c b ≡ false
      → starts_before refs c a ≡ false
  unfolding starts_before
  starts_trans refs a b c h k = ground arith

  ref_order_waits :
      (refs : List SymbolRef) → Waiting refs (ref_order refs) × Distinct (ref_order refs)
  unfolding ref_order
  ref_order_waits refs = (
    (
      Sorted-slice_stable (starts_before refs) (starts_asym refs) (starts_trans refs)
          (indices 0 (length refs)),
      All-of_mem (λ k. k < length refs) (ref_order refs)
          (λ k m. ground (arith, mem-ref_order refs k)),
    ),
    Distinct-slice_stable (starts_before refs) (indices 0 (length refs))
        (Distinct-indices 0 (length refs)),
  )

  -- Every ref is placed at the latest instance of the order that covers it, or else at the first
  -- root.
  pub number_refs-owned :
      (refs : List SymbolRef) (order : List ℕ) (r : ℕ) (roots : List ℕ)
      → ((a : ℕ) → less a a ≡ false)
      → Sorted less order
      → (length (number_refs refs insts order rank (r ∷ roots)) ≡ length refs)
        × ((k : ℕ)
            → k < length refs
            → ref_at (number_refs refs insts order rank (r ∷ roots)) k
              ≡ placed insts (at insts r) (reverse order) refs k)
  unfolding number_refs
  number_refs-owned [] order r roots i s = (refl, λ k l. absurd (omega arith))
  number_refs-owned (f ∷ refs) order r roots i s =
      let (w, d) = ref_order_waits (f ∷ refs) in
      ref_sweep-Settled (at insts r) (f ∷ refs) order [] [] (ref_order (f ∷ refs)) (f ∷ refs) i
        (λ e. refl) s (All-map (λ y t. tt) order (All-of_mem (λ _. Unit {0}) order (λ y m. tt)))
        (record {
          sub = λ P h. h;
          finds = λ k m. refl;
          same_length = refl;
          waits = λ k m. refl;
          settled = λ k l m. absurd (ground (arith, mem-ref_order (f ∷ refs) k));
          waiting = w;
          distinct = d;
        })
