-- ===== src/Parser/Stage/Invariant.antt =====
-- pkg/parser/parsing_stage.go: what holds in every state that a stage can come to.
use askl_golang_indexer.Prelude.{
  ℕ, suc, ◌+◌, ◌≡◌, refl, ap, ◌⊎◌, inl, inr, true, ltb, Option, none, some, List, [], ◌∷◌, ◌++◌,
  arith, Text, length, length-append, In, In-left, In-right, Bool-cases,
}
use askl_golang_indexer.Indexing.Expand.{DistinctTexts}
use askl_golang_indexer.Parser.Stage.{
  Parsable, channel_capacity, StageState, new_stage, submit, id_known, note_id,
}

module _ {A : Type 0} where
  pub In-middle :
      (y x : A) (pre post : List A) → In y (pre ++ x ∷ post) → (x ≡ y) ⊎ In y (pre ++ post)
  In-middle y x [] post h = h
  In-middle y x (z ∷ pre) post (inl e) = inr (inl e)
  In-middle y x (z ∷ pre) post (inr h) = elim (In-middle y x pre post h) [
    | inl e ↦ inl e
    | inr k ↦ inr (inr k)
  ]

  pub In-around : (y x : A) (pre post : List A) → In y (pre ++ post) → In y (pre ++ x ∷ post)
  In-around y x [] post h = inr h
  In-around y x (z ∷ pre) post (inl e) = inl e
  In-around y x (z ∷ pre) post (inr h) = inr (In-around y x pre post h)

  pub In-at : (x : A) (pre post : List A) → In x (pre ++ x ∷ post)
  In-at x [] post = inl refl
  In-at x (z ∷ pre) post = inr (In-at x pre post)

  pub length-middle :
      (x : A) (pre post : List A) → length (pre ++ x ∷ post) ≡ suc (length (pre ++ post))
  length-middle x [] post = refl
  length-middle x (z ∷ pre) post = ap suc (length-middle x pre post)

module _ {Item : Type 0} (p : Parsable Item) where
  abbrev pub held : Option Item → ℕ
  held none = 0
  held (some item) = 1

  -- The identifiers of the items that were let through.
  abbrev pub ids_of : List Item → List Text
  ids_of [] = []
  ids_of (item ∷ items) = note_id (p.id_of item) (ids_of items)

  -- On its way through the loop and the workers.
  abbrev pub Underway : StageState Item → Item → Type 0
  Underway s item =
      (s.in_hand ≡ some item)
      ⊎ (In item s.handed ⊎ ((rest : List Item) × In (item, rest) s.running))

  -- Parsed: all that it submits was submitted, and its error is kept.
  abbrev pub Finished : StageState Item → Item → Type 0
  Finished s item =
      ((c : Item) → In c (p.submits item) → In c s.submitted)
      × ((e : Text) → p.failure item ≡ some e → In e s.errs)

  -- Let through, or dropped for an item with its identifier.
  abbrev pub Settled : StageState Item → Item → Type 0
  Settled s item = In item s.begun ⊎ (id_known (p.id_of item) s.parsed ≡ true)

  -- What a busy worker has yet to submit, but for one item.
  abbrev pub Nested : (Item → Type 0) → StageState Item → Type 0
  Nested But s =
      (item : Item) (rest : List Item) (c : Item)
      → In (item, rest) s.running
      → In c (p.submits item)
      → But c ⊎ (In c rest ⊎ In c s.submitted)

  abbrev pub NothingLeft : Item → Type 0
  NothingLeft c = ⊥

  pub record Core (s : StageState Item) : Type 0 where
    pub count :
        s.waiting
        ≡ length s.channel + length s.spawned + held s.in_hand + length s.handed + length s.running
    pub ids : s.parsed ≡ ids_of s.begun
    pub distinct : DistinctTexts s.parsed
    pub kept :
        (item : Item)
        → In item s.submitted
        → In item s.channel ⊎ (In item s.spawned ⊎ Settled s item)
    pub done : (item : Item) → In item s.begun → Underway s item ⊎ Finished s item
    pub let_through : (item : Item) → Underway s item → In item s.begun
    pub told :
        (e : Text) → In e s.errs → (item : Item) × In item s.begun × (p.failure item ≡ some e)

  pub record Inv (s : StageState Item) : Type 0 where
    pub core : Core s
    pub nested : Nested NothingLeft s

  pub new_stage-Inv : Inv new_stage
  new_stage-Inv = record {
    core = record {
      count = omega arith;
      ids = refl;
      distinct = tt;
      kept = λ item m. absurd m;
      done = λ item m. absurd m;
      let_through = λ item u. absurd (nowhere item u);
      told = λ e m. absurd m;
    };
    nested = λ item rest c m k. absurd m;
  }
    where
      nowhere : (item : Item) → Underway new_stage item → ⊥
      nowhere item (inl e) = ground arith
      nowhere item (inr (inl m)) = m
      nowhere item (inr (inr (rest, m))) = m

  Finished-more :
      (x : Item) (s : StageState Item) (i : Item)
      → Finished s i
      → Finished (record s { submitted = x ∷ s.submitted }) i
  Finished-more x s i f = (λ c m. inr (f.0 c m), f.1)

  pub submit-Core : (item : Item) (s : StageState Item) → Core s → Core (submit item s)
  unfolding submit
  submit-Core item s v = elim (Bool-cases (ltb (length s.channel) channel_capacity)) [
    | inl e ↦ rw e (record {
      count = omega (arith, v.count, length-append s.channel (item ∷ []));
      ids = v.ids;
      distinct = v.distinct;
      kept = λ i m. elim m [
        | inl f ↦ inl (In-right i s.channel (item ∷ []) (inl f))
        | inr k ↦ elim (v.kept i k) [
          | inl c ↦ inl (In-left i s.channel (item ∷ []) c)
          | inr r ↦ inr r
        ]
      ];
      done = λ i m. elim (v.done i m) [ inl u ↦ inl u | inr f ↦ inr (Finished-more item s i f) ];
      let_through = v.let_through;
      told = v.told;
    })
    | inr e ↦ rw e (record {
      count = omega (arith, v.count);
      ids = v.ids;
      distinct = v.distinct;
      kept = λ i m. elim m [
        | inl f ↦ inr (inl (inl f))
        | inr k ↦ elim (v.kept i k) [
          | inl c ↦ inl c
          | inr (inl c) ↦ inr (inl (inr c))
          | inr (inr c) ↦ inr (inr c)
        ]
      ];
      done = λ i m. elim (v.done i m) [ inl u ↦ inl u | inr f ↦ inr (Finished-more item s i f) ];
      let_through = v.let_through;
      told = v.told;
    })
  ]

  pub submit-Nested :
      (item : Item) (s : StageState Item)
      → Nested (λ c. item ≡ c) s
      → Nested NothingLeft (submit item s)
  unfolding submit
  submit-Nested item s n = elim (Bool-cases (ltb (length s.channel) channel_capacity)) [
    | inl e ↦ rw e (λ i rest c m k. at_case rest (n i rest c m k))
    | inr e ↦ rw e (λ i rest c m k. at_case rest (n i rest c m k))
  ]
    where
      at_case :
          {c : Item} (rest : List Item)
          → (item ≡ c) ⊎ (In c rest ⊎ In c s.submitted)
          → ⊥ ⊎ (In c rest ⊎ In c (item ∷ s.submitted))
      at_case rest (inl e) = inr (inr (inl e))
      at_case rest (inr (inl m)) = inr (inl m)
      at_case rest (inr (inr m)) = inr (inr (inr m))

  pub submit-Inv : (item : Item) (s : StageState Item) → Inv s → Inv (submit item s)
  submit-Inv item s v = record {
    core = submit-Core item s v.core;
    nested =
        submit-Nested item s
          (λ i rest c m k. elim (v.nested i rest c m k) [ inl n ↦ absurd n | inr h ↦ inr h ]);
  }
