-- ===== src/Parser/Stage/Complete.antt =====
-- pkg/parser/parsing_stage.go: what `Wait` may rely on when it returns, and that it can return.
use askl_golang_indexer.Prelude.{
  ℕ, ◌<◌, ◌≡◌, refl, ◌∙◌, ap, sym, subst, ◌⊎◌, inl, inr, ◌↔◌, true, Option, none, some, List, [],
  ◌∷◌, arith, Text, text_beq, text_beq_iff, length, In, Bool-cases,
}
use askl_golang_indexer.Index.Directories.{has_text}
use askl_golang_indexer.Indexing.Expand.{DistinctTexts}
use askl_golang_indexer.Parser.Stage.{
  Parsable, StageState, id_known, note_id, Step, send, skip, receive, hand, start, nest, finish,
  Reach, IsQuiet, wait_with, wait,
}
use askl_golang_indexer.Parser.Stage.Invariant.{
  held, ids_of, Underway, Finished, Settled, Core, Inv,
}
use askl_golang_indexer.Parser.Stage.Returns.{Reach-Inv}

length_nil : {A : Type 0} (xs : List A) → length xs ≡ 0 → xs ≡ []
length_nil [] h = refl
length_nil (x ∷ xs) h = absurd (ground arith)

not-In : {A : Type 0} (x : A) (xs : List A) → length xs ≡ 0 → In x xs → ⊥
not-In x [] h m = m
not-In x (y ∷ xs) h m = ground arith

-- The errors joined in what `Wait` returns.
abbrev pub errors_of : Option (List Text) → List Text
errors_of none = []
errors_of (some errs) = errs

errors_of-wait_with :
    {Item : Type 0} (errs : List Text) (s : StageState Item) → errors_of (wait_with errs s).0 ≡ errs
errors_of-wait_with [] s = refl
errors_of-wait_with (e ∷ errs) s = refl

module _ {Item : Type 0} (p : Parsable Item) (workers : ℕ) where
  -- An item of `items` has the identifier.
  abbrev pub SameId : Text → List Item → Type 0
  SameId id items = (b : Item) × In b items × (p.id_of b ≡ some id)

  SameId-cons :
      (id : Text) (item : Item) (items : List Item) (o : Option Text)
      → p.id_of item ≡ o
      → (has_text id (ids_of p items) ≡ true → SameId id items)
      → has_text id (note_id o (ids_of p items)) ≡ true
      → SameId id (item ∷ items)
  unfolding has_text
  SameId-cons id item items none e rest k = let (b, m, f) = rest k in (b, inr m, f)
  SameId-cons id item items (some x) e rest k = elim (Bool-cases (text_beq x id)) [
    | inl t ↦ (item, inl refl, e ∙ ap some ((text_beq_iff x id).0 t))
    | inr t ↦ let (b, m, f) = rest (ground arith) in (b, inr m, f)
  ]

  SameId-ids_of :
      (id : Text) (items : List Item) → has_text id (ids_of p items) ≡ true → SameId id items
  SameId-ids_of id [] h = absurd (unfold has_text in ground arith)
  SameId-ids_of id (item ∷ items) h =
      SameId-cons id item items (p.id_of item) refl (SameId-ids_of id items) h

  -- The work of a stage, done.
  pub record IsComplete (s : StageState Item) : Type 0 where
    -- no identifier was let through twice
    pub once : DistinctTexts (ids_of p s.begun)
    -- every item that was submitted was let through, or one with its identifier was
    pub covered :
        (item : Item)
        → In item s.submitted
        → In item s.begun ⊎ ((id : Text) × (p.id_of item ≡ some id) × SameId id s.begun)
    -- and so for what the items submit themselves
    pub closed : (item c : Item) → In item s.begun → In c (p.submits item) → In c s.submitted
    -- `Wait` returns exactly the errors of these items
    pub reported :
        (e : Text)
        → In e (errors_of (wait s).0)
          ↔ ((item : Item) × In item s.begun × (p.failure item ≡ some e))

  -- When the group's counter is 0, nothing is left anywhere.
  not-Underway :
      (s : StageState Item) → Core p s → s.waiting ≡ 0 → (item : Item) → Underway p s item → ⊥
  not-Underway s v q item (inl e) = omega (arith, v.count, q, ap (held p) e)
  not-Underway s v q item (inr (inl m)) = not-In item s.handed (omega (arith, v.count, q)) m
  not-Underway s v q item (inr (inr (rest, m))) =
      not-In (item, rest) s.running (omega (arith, v.count, q)) m

  finished :
      (s : StageState Item)
      → Core p s
      → s.waiting ≡ 0
      → (item : Item) → In item s.begun
      → Finished p s item
  finished s v q item m = elim (v.done item m) [
    | inl u ↦ absurd (not-Underway s v q item u)
    | inr f ↦ f
  ]

  settled :
      (s : StageState Item)
      → Core p s
      → s.waiting ≡ 0
      → (item : Item) → In item s.submitted
      → Settled p s item
  settled s v q item m = elim (v.kept item m) [
    | inl c ↦ absurd (not-In item s.channel (omega (arith, v.count, q)) c)
    | inr (inl c) ↦ absurd (not-In item s.spawned (omega (arith, v.count, q)) c)
    | inr (inr h) ↦ h
  ]

  covered_by :
      (s : StageState Item) (item : Item)
      → s.parsed ≡ ids_of p s.begun
      → Settled p s item
      → In item s.begun ⊎ ((id : Text) × (p.id_of item ≡ some id) × SameId id s.begun)
  covered_by s item e (inl m) = inl m
  covered_by s item e (inr k) = inr (at_id (p.id_of item) refl k)
    where
      at_id :
          (o : Option Text)
          → p.id_of item ≡ o
          → id_known o s.parsed ≡ true
          → (id : Text) × (p.id_of item ≡ some id) × SameId id s.begun
      at_id none f h = absurd (ground arith)
      at_id (some id) f h =
          (id, f, SameId-ids_of id s.begun (subst (λ ids. has_text id ids ≡ true) e h))

  -- However the goroutines interleave: when `Wait` returns, the items that were parsed are closed
  -- under what they submit, none was parsed twice, none that was submitted is missing, and the
  -- errors it returns are those of the items.
  pub quiet-IsComplete : (s : StageState Item) → Reach p workers s → IsQuiet s → IsComplete s
  quiet-IsComplete s r q =
      let v = Inv.core (Reach-Inv p workers r) in
      record {
        once = subst DistinctTexts v.ids v.distinct;
        covered = λ item m. covered_by s item v.ids (settled s v q item m);
        closed = λ item c m k. (finished s v q item m).0 c k;
        reported = λ e.
            subst
              (λ errs. In e errs ↔ ((item : Item) × In item s.begun × (p.failure item ≡ some e)))
              (sym (errors_of-wait_with s.errs s))
              (v.told e, λ (item, m, f). (finished s v q item m).1 e f);
      }

  -- While the counter is above 0, a step is possible: the stage is never stuck, even when its
  -- channels are full.
  pub not_stuck :
      (s : StageState Item)
      → 0 < workers
      → Reach p workers s
      → 0 < s.waiting
      → (t : StageState Item) × Step p workers s t
  not_stuck s some_worker r busy = at_running s.running refl
    where
      v : Core p s
      v = Inv.core (Reach-Inv p workers r)

      at_spawned :
          (xs : List Item)
          → s.spawned ≡ xs
          → s.channel ≡ []
          → s.in_hand ≡ none
          → s.handed ≡ []
          → s.running ≡ []
          → (t : StageState Item) × Step p workers s t
      at_spawned [] e f g h k = absurd (
          omega (
            arith,
            v.count,
            ap length e,
            ap length f,
            ap (held p) g,
            ap length h,
            ap length k,
            busy,
          ))
      at_spawned (x ∷ xs) e f g h k = (_, send [] xs x e (omega (arith, ap length f)))

      at_channel :
          (xs : List Item)
          → s.channel ≡ xs
          → s.in_hand ≡ none
          → s.handed ≡ []
          → s.running ≡ []
          → (t : StageState Item) × Step p workers s t
      at_channel [] e g h k = at_spawned s.spawned refl e g h k
      at_channel (x ∷ xs) e g h k = elim (Bool-cases (id_known (p.id_of x) s.parsed)) [
        | inl known ↦ (_, skip x xs g e known)
        | inr unknown ↦ (_, receive x xs g e unknown)
      ]

      at_hand :
          (o : Option Item)
          → s.in_hand ≡ o
          → s.handed ≡ []
          → s.running ≡ []
          → (t : StageState Item) × Step p workers s t
      at_hand none e h k = at_channel s.channel refl e h k
      at_hand (some x) e h k = (_, hand x e (omega (arith, ap length h, some_worker)))

      at_handed :
          (xs : List Item)
          → s.handed ≡ xs
          → s.running ≡ []
          → (t : StageState Item) × Step p workers s t
      at_handed [] e k = at_hand s.in_hand refl e k
      at_handed (x ∷ xs) e k = (_, start x xs e (omega (arith, ap length k, some_worker)))

      at_running :
          (xs : List (Item × List Item))
          → s.running ≡ xs
          → (t : StageState Item) × Step p workers s t
      at_running [] e = at_handed s.handed refl e
      at_running ((x, []) ∷ xs) e = (_, finish [] xs x e)
      at_running ((x, c ∷ cs) ∷ xs) e = (_, nest [] xs x c cs e)
