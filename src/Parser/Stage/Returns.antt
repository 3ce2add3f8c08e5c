-- ===== src/Parser/Stage/Returns.antt =====
-- pkg/parser/parsing_stage.go: a worker's steps keep the invariant, and so does every run.
use askl_golang_indexer.Prelude.{
  ℕ, ◌-◌, ◌≡◌, ap, sym, subst, ◌⊎◌, inl, inr, Option, none, some, List, [], ◌∷◌, ◌++◌, arith, Text,
  length, In, In-left, In-right, In-append,
}
use askl_golang_indexer.Parser.Stage.{
  Parsable, StageState, submit, note_error, Step, send, skip, receive, hand, start, nest, finish,
  Reach, fresh, called, later,
}
use askl_golang_indexer.Parser.Stage.Invariant.{
  In-middle, In-around, In-at, length-middle, Nested, NothingLeft, Core, Inv, new_stage-Inv,
  submit-Core, submit-Nested, submit-Inv,
}
use askl_golang_indexer.Parser.Stage.Moves.{send-Inv, skip-Inv, receive-Inv, hand-Inv, start-Inv}

module _ {Item : Type 0} (p : Parsable Item) where
  given_up-Core :
      (s : StageState Item) (pre post : List (Item × List Item)) (item child : Item)
      (children : List Item)
      → s.running ≡ pre ++ (item, child ∷ children) ∷ post
      → Core p s
      → Core p (record s { running = pre ++ (item, children) ∷ post })
  given_up-Core s pre post item child children e v = record {
    count = omega (
      arith,
      v.count,
      ap length e,
      length-middle (item, child ∷ children) pre post,
      length-middle (item, children) pre post,
    );
    ids = v.ids;
    distinct = v.distinct;
    kept = v.kept;
    done = λ i m. elim (v.done i m) [
      | inl (inl h) ↦ inl (inl h)
      | inl (inr (inl h)) ↦ inl (inr (inl h))
      | inl (inr (inr (r, h))) ↦
          elim (In-middle (i, r) (item, child ∷ children) pre post (subst (In (i, r)) e h)) [
            | inl f ↦ inl (
                inr (
                  inr (
                    children,
                    subst (λ j. In (j, children) (pre ++ (item, children) ∷ post)) (ap (λ x. x.0) f)
                        (In-at (item, children) pre post),
                  )))
            | inr k ↦ inl (inr (inr (r, In-around (i, r) (item, children) pre post k)))
          ]
      | inr h ↦ inr h
    ];
    let_through = λ i u. elim u [
      | inl h ↦ v.let_through i (inl h)
      | inr (inl h) ↦ v.let_through i (inr (inl h))
      | inr (inr (r, h)) ↦ elim (In-middle (i, r) (item, children) pre post h) [
        | inl f ↦
            subst (λ j. In j s.begun) (ap (λ x. x.0) f)
              (v.let_through item (
                inr (
                  inr (
                    child ∷ children,
                    subst (In (item, child ∷ children)) (sym e)
                        (In-at (item, child ∷ children) pre post),
                  ))))
        | inr k ↦ v.let_through i (
            inr (
              inr (
                r,
                subst (In (i, r)) (sym e) (In-around (i, r) (item, child ∷ children) pre post k),
              )))
      ]
    ];
    told = v.told;
  }

  given_up-Nested :
      (s : StageState Item) (pre post : List (Item × List Item)) (item child : Item)
      (children : List Item)
      → s.running ≡ pre ++ (item, child ∷ children) ∷ post
      → Nested p (NothingLeft p) s
      → Nested p (λ c. child ≡ c) (record s { running = pre ++ (item, children) ∷ post })
  given_up-Nested s pre post item child children e n i r c m k =
      elim (In-middle (i, r) (item, children) pre post m) [
        | inl f ↦
            at_item
              (n item (child ∷ children) c
                (subst (In (item, child ∷ children)) (sym e)
                  (In-at (item, child ∷ children) pre post))
                (subst (λ j. In c (p.submits j)) (sym (ap (λ x. x.0) f)) k))
              (ap (λ x. x.1) f)
        | inr h ↦
            elim (n i r c
              (subst (In (i, r)) (sym e) (In-around (i, r) (item, child ∷ children) pre post h))
              k) [ inl z ↦ absurd z | inr z ↦ inr z ]
      ]
    where
      at_item :
          {c : Item} {r : List Item}
          → ⊥ ⊎ (In c (child ∷ children) ⊎ In c s.submitted)
          → children ≡ r
          → (child ≡ c) ⊎ (In c r ⊎ In c s.submitted)
      at_item (inl z) f = absurd z
      at_item (inr (inl (inl d))) f = inl d
      at_item {c} (inr (inl (inr d))) f = inr (inl (subst (In c) f d))
      at_item (inr (inr d)) f = inr (inr d)

  nest-Inv :
      (s : StageState Item) (pre post : List (Item × List Item)) (item child : Item)
      (children : List Item)
      → s.running ≡ pre ++ (item, child ∷ children) ∷ post
      → Inv p s
      → Inv p (submit child (record s { running = pre ++ (item, children) ∷ post }))
  nest-Inv s pre post item child children e v =
      let t = record s { running = pre ++ (item, children) ∷ post } in
      record {
        core = submit-Core p child t (given_up-Core s pre post item child children e v.core);
        nested =
            submit-Nested p child t (given_up-Nested s pre post item child children e v.nested);
      }

  In-note_error :
      (o : Option Text) (errs : List Text) (e : Text)
      → In e (note_error o errs)
      → In e errs ⊎ (o ≡ some e)
  In-note_error none errs e m = inl m
  In-note_error (some x) errs e m = elim (In-append e errs (x ∷ []) m) [
    | inl k ↦ inl k
    | inr (inl f) ↦ inr (ap some f)
    | inr (inr n) ↦ absurd n
  ]

  note_error-kept :
      (o : Option Text) (errs : List Text) (e : Text) → In e errs → In e (note_error o errs)
  note_error-kept none errs e m = m
  note_error-kept (some x) errs e m = In-left e errs (x ∷ []) m

  note_error-new :
      (o : Option Text) (errs : List Text) (e : Text) → o ≡ some e → In e (note_error o errs)
  note_error-new none errs e h = absurd (ground arith)
  note_error-new (some x) errs e h = In-right e errs (x ∷ []) (inl (ground arith))

  finish-Inv :
      (s : StageState Item) (pre post : List (Item × List Item)) (item : Item)
      → s.running ≡ pre ++ (item, []) ∷ post
      → Inv p s
      → Inv p (record s {
        running = pre ++ post;
        errs = note_error (p.failure item) s.errs;
        waiting = s.waiting - 1;
      })
  finish-Inv s pre post item e v = record {
    core = record {
      count = omega (arith, v.core.count, ap length e, length-middle (item, []) pre post);
      ids = v.core.ids;
      distinct = v.core.distinct;
      kept = v.core.kept;
      done = λ i m. elim (v.core.done i m) [
        | inl (inl h) ↦ inl (inl h)
        | inl (inr (inl h)) ↦ inl (inr (inl h))
        | inl (inr (inr (r, h))) ↦
            elim (In-middle (i, r) (item, []) pre post (subst (In (i, r)) e h)) [
              | inl f ↦ inr (subst Over (ap (λ x. x.0) f) ended)
              | inr k ↦ inl (inr (inr (r, k)))
            ]
        | inr h ↦ inr (h.0, λ x g. note_error-kept (p.failure item) s.errs x (h.1 x g))
      ];
      let_through = λ i u. elim u [
        | inl h ↦ v.core.let_through i (inl h)
        | inr (inl h) ↦ v.core.let_through i (inr (inl h))
        | inr (inr (r, h)) ↦ v.core.let_through i (inr (inr (r, back (i, r) h)))
      ];
      told = λ x m. elim (In-note_error (p.failure item) s.errs x m) [
        | inl k ↦ v.core.told x k
        | inr f ↦ (item, v.core.let_through item (inr (inr ([], here))), f)
      ];
    };
    nested = λ i r c m k. v.nested i r c (back (i, r) m) k;
  }
    where
      here : In (item, []) s.running
      here = subst (In (item, [])) (sym e) (In-at (item, []) pre post)

      back : (x : Item × List Item) → In x (pre ++ post) → In x s.running
      back x m = subst (In x) (sym e) (In-around x (item, []) pre post m)

      Over : Item → Type 0
      Over j =
          ((c : Item) → In c (p.submits j) → In c s.submitted)
          × ((x : Text) → p.failure j ≡ some x → In x (note_error (p.failure item) s.errs))

      ended : Over item
      ended = (
        λ c k. elim (v.nested item [] c here k) [
          | inl z ↦ absurd z
          | inr (inl z) ↦ absurd z
          | inr (inr z) ↦ z
        ],
        λ x g. note_error-new (p.failure item) s.errs x g,
      )

  module _ (workers : ℕ) where
    Step-Inv : {s t : StageState Item} → Step p workers s t → Inv p s → Inv p t
    Step-Inv {s} (send pre post item e l) v = send-Inv p s pre post item e v
    Step-Inv {s} (skip item rest f e k) v = skip-Inv p s item rest e k v
    Step-Inv {s} (receive item rest f e k) v = receive-Inv p s item rest f e k v
    Step-Inv {s} (hand item e l) v = hand-Inv p s item e v
    Step-Inv {s} (start item rest e l) v = start-Inv p s item rest e v
    Step-Inv {s} (nest pre post item child children e) v =
        nest-Inv s pre post item child children e v
    Step-Inv {s} (finish pre post item e) v = finish-Inv s pre post item e v

    pub Reach-Inv : {s : StageState Item} → Reach p workers s → Inv p s
    Reach-Inv fresh = new_stage-Inv p
    Reach-Inv (called {s} item r) = submit-Inv p item s (Reach-Inv r)
    Reach-Inv (later r st) = Step-Inv st (Reach-Inv r)
