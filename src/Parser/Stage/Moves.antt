-- ===== src/Parser/Stage/Moves.antt =====
-- pkg/parser/parsing_stage.go: each step of a stage keeps the invariant.
use askl_golang_indexer.Prelude.{
  ◌-◌, ◌≡◌, ◌∙◌, ap, sym, subst, inl, inr, true, false, Option, none, some, List, [], ◌∷◌, ◌++◌,
  arith, Text, length, length-append, In, In-left, In-right, In-append,
}
use askl_golang_indexer.Index.Directories.{has_text}
use askl_golang_indexer.Indexing.Expand.{DistinctTexts}
use askl_golang_indexer.Parser.Stage.{Parsable, StageState, id_known, note_id}
use askl_golang_indexer.Parser.Stage.Invariant.{In-middle, length-middle, held, Inv}

module _ {Item : Type 0} (p : Parsable Item) where
  pub send-Inv :
      (s : StageState Item) (pre post : List Item) (item : Item)
      → s.spawned ≡ pre ++ item ∷ post
      → Inv p s
      → Inv p (record s { channel = s.channel ++ item ∷ []; spawned = pre ++ post })
  send-Inv s pre post item e v = record {
    core = record {
      count = omega (
        arith,
        v.core.count,
        ap length e,
        length-middle item pre post,
        length-append s.channel (item ∷ []),
      );
      ids = v.core.ids;
      distinct = v.core.distinct;
      kept = λ i m. elim (v.core.kept i m) [
        | inl c ↦ inl (In-left i s.channel (item ∷ []) c)
        | inr (inl c) ↦ elim (In-middle i item pre post (subst (In i) e c)) [
          | inl f ↦ inl (In-right i s.channel (item ∷ []) (inl f))
          | inr k ↦ inr (inl k)
        ]
        | inr (inr c) ↦ inr (inr c)
      ];
      done = v.core.done;
      let_through = v.core.let_through;
      told = v.core.told;
    };
    nested = v.nested;
  }

  pub skip-Inv :
      (s : StageState Item) (item : Item) (rest : List Item)
      → s.channel ≡ item ∷ rest
      → id_known (p.id_of item) s.parsed ≡ true
      → Inv p s
      → Inv p (record s { channel = rest; waiting = s.waiting - 1 })
  skip-Inv s item rest e known v = record {
    core = record {
      count = omega (arith, v.core.count, ap length e);
      ids = v.core.ids;
      distinct = v.core.distinct;
      kept = λ i m. elim (v.core.kept i m) [
        | inl c ↦ elim (subst (In i) e c) [
          | inl f ↦ inr (inr (inr (subst (λ j. id_known (p.id_of j) s.parsed ≡ true) f known)))
          | inr k ↦ inl k
        ]
        | inr r ↦ inr r
      ];
      done = v.core.done;
      let_through = v.core.let_through;
      told = v.core.told;
    };
    nested = v.nested;
  }

  pub note_id-DistinctTexts :
      (o : Option Text) (parsed : List Text)
      → id_known o parsed ≡ false
      → DistinctTexts parsed
      → DistinctTexts (note_id o parsed)
  note_id-DistinctTexts none parsed h d = d
  note_id-DistinctTexts (some id) parsed h d = (h, d)

  pub id_known-note_id :
      (o q : Option Text) (parsed : List Text)
      → id_known o parsed ≡ true
      → id_known o (note_id q parsed) ≡ true
  unfolding has_text
  id_known-note_id none q parsed h = absurd (ground arith)
  id_known-note_id (some id) none parsed h = h
  id_known-note_id (some id) (some other) parsed h = ground arith

  pub receive-Inv :
      (s : StageState Item) (item : Item) (rest : List Item)
      → s.in_hand ≡ none
      → s.channel ≡ item ∷ rest
      → id_known (p.id_of item) s.parsed ≡ false
      → Inv p s
      → Inv p (record s {
        channel = rest;
        in_hand = some item;
        parsed = note_id (p.id_of item) s.parsed;
        begun = item ∷ s.begun;
      })
  receive-Inv s item rest free e unknown v = record {
    core = record {
      count = omega (arith, v.core.count, ap length e, ap (held p) free);
      ids = ap (note_id (p.id_of item)) v.core.ids;
      distinct = note_id-DistinctTexts (p.id_of item) s.parsed unknown v.core.distinct;
      kept = λ i m. elim (v.core.kept i m) [
        | inl c ↦ elim (subst (In i) e c) [ inl f ↦ inr (inr (inl (inl f))) | inr k ↦ inl k ]
        | inr (inl c) ↦ inr (inl c)
        | inr (inr (inl c)) ↦ inr (inr (inl (inr c)))
        | inr (inr (inr c)) ↦
            inr (inr (inr (id_known-note_id (p.id_of i) (p.id_of item) s.parsed c)))
      ];
      done = λ i m. elim m [
        | inl f ↦ inl (inl (ap some f))
        | inr k ↦ elim (v.core.done i k) [
          | inl (inl h) ↦ absurd (not_none i h)
          | inl (inr h) ↦ inl (inr h)
          | inr h ↦ inr h
        ]
      ];
      let_through =
          λ i u. elim u [ inl h ↦ inl (same i h) | inr h ↦ inr (v.core.let_through i (inr h)) ];
      told = λ x m. let (i, k, f) = v.core.told x m in (i, inr k, f);
    };
    nested = v.nested;
  }
    where
      not_none : (i : Item) → s.in_hand ≡ some i → ⊥
      not_none i h = ground arith

      same : (i : Item) → some item ≡ some i → item ≡ i
      same i h = ground arith

  pub hand-Inv :
      (s : StageState Item) (item : Item)
      → s.in_hand ≡ some item
      → Inv p s
      → Inv p (record s { in_hand = none; handed = s.handed ++ item ∷ [] })
  hand-Inv s item e v = record {
    core = record {
      count = omega (arith, v.core.count, ap (held p) e, length-append s.handed (item ∷ []));
      ids = v.core.ids;
      distinct = v.core.distinct;
      kept = v.core.kept;
      done = λ i m. elim (v.core.done i m) [
        | inl (inl h) ↦ inl (inr (inl (In-right i s.handed (item ∷ []) (inl (same i h)))))
        | inl (inr (inl h)) ↦ inl (inr (inl (In-left i s.handed (item ∷ []) h)))
        | inl (inr (inr h)) ↦ inl (inr (inr h))
        | inr h ↦ inr h
      ];
      let_through = λ i u. elim u [
        | inl h ↦ absurd (not_some i h)
        | inr (inl h) ↦ elim (In-append i s.handed (item ∷ []) h) [
          | inl k ↦ v.core.let_through i (inr (inl k))
          | inr (inl f) ↦ v.core.let_through i (inl (e ∙ ap some f))
          | inr (inr n) ↦ absurd n
        ]
        | inr (inr h) ↦ v.core.let_through i (inr (inr h))
      ];
      told = v.core.told;
    };
    nested = v.nested;
  }
    where
      same : (i : Item) → s.in_hand ≡ some i → item ≡ i
      same i h = ground arith

      not_some : (i : Item) → none ≡ some i → ⊥
      not_some i h = ground arith

  pub start-Inv :
      (s : StageState Item) (item : Item) (rest : List Item)
      → s.handed ≡ item ∷ rest
      → Inv p s
      → Inv p (record s { handed = rest; running = (item, p.submits item) ∷ s.running })
  start-Inv s item rest e v = record {
    core = record {
      count = omega (arith, v.core.count, ap length e);
      ids = v.core.ids;
      distinct = v.core.distinct;
      kept = v.core.kept;
      done = λ i m. elim (v.core.done i m) [
        | inl (inl h) ↦ inl (inl h)
        | inl (inr (inl h)) ↦ elim (subst (In i) e h) [
          | inl f ↦ inl (inr (inr (p.submits item, inl (ap (λ j. (j, p.submits item)) f))))
          | inr k ↦ inl (inr (inl k))
        ]
        | inl (inr (inr (r, h))) ↦ inl (inr (inr (r, inr h)))
        | inr h ↦ inr h
      ];
      let_through = λ i u. elim u [
        | inl h ↦ v.core.let_through i (inl h)
        | inr (inl h) ↦ v.core.let_through i (inr (inl (subst (In i) (sym e) (inr h))))
        | inr (inr (r, inl f)) ↦
            v.core.let_through i (inr (inl (subst (In i) (sym e) (inl (ap (λ x. x.0) f)))))
        | inr (inr (r, inr h)) ↦ v.core.let_through i (inr (inr (r, h)))
      ];
      told = v.core.told;
    };
    nested = λ i r c m k. elim m [
      | inl f ↦ inr (
          inl (
            subst (In c) (ap (λ x. x.1) f)
              (subst (λ j. In c (p.submits j)) (sym (ap (λ x. x.0) f)) k)))
      | inr h ↦ v.nested i r c h k
    ];
  }
  -- A worker gives up one child, which is submitted at once.
