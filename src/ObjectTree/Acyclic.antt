-- ===== src/ObjectTree/Acyclic.antt =====
-- pkg/index/numbering.go, `numberObjectTree`: the parent arrays stay in range, and the parents that
-- are derived from the ranges never lead in a circle.
use askl_golang_indexer.Prelude.{
  ℕ, zero, suc, ◌<◌, ◌≡◌, ◌∙◌, sym, subst, ◌⊎◌, inl, inr, Bool, true, false, none, some, List, [],
  ◌∷◌, arith, ltb, ◌==◌, ==_iff, length, All-mem, mem, Bool-cases, Option-cases, Map, if◌then◌else◌,
}
use askl_golang_indexer.Proto.{SymbolInstance}
use askl_golang_indexer.Parentage.{order_of, within, outermost_first}
use askl_golang_indexer.Parentage.Order.{
  Sorted, Sorted-order_of, mem-order_of, outermost_first_irrefl, outermost_first-of-within,
}
use askl_golang_indexer.Parentage.Sweep.{sweep_other}
use askl_golang_indexer.Parentage.Kids.{apply_stated_bounded}
use askl_golang_indexer.Forest.Chain.{Chain}
use askl_golang_indexer.ObjectTree.{derived_parents, stated_parents}
use askl_golang_indexer.ObjectTree.Parents.{derived_parents-IsInnermost}
use askl_golang_indexer.ObjectTree.Numbered.{AllRooted}

-- The position of a number in a list.
position : ℕ → List ℕ → ℕ
position x [] = 0
position x (y ∷ ys) = if y == x then 0 else suc (position x ys)

position_lt :
    (less : ℕ → ℕ → Bool) (order : List ℕ) (p x : ℕ)
    → ((a : ℕ) → less a a ≡ false)
    → Sorted less order
    → mem p order ≡ true
    → mem x order ≡ true
    → less p x ≡ true
    → position p order < position x order
unfolding position
position_lt less [] p x irrefl s m k h = absurd (ground arith)
position_lt less (a ∷ order) p x irrefl s m k h = elim (Bool-cases (a == x)) [
  | inl e ↦ absurd (later (Bool-cases (a == p)) ((==_iff a x).0 e))
  | inr e ↦ elim (Bool-cases (a == p)) [
    | inl e' ↦ ground arith
    | inr e' ↦
        let deep = position_lt less order p x irrefl s.1 (ground arith) (ground arith) h in
        ground arith
  ]
]
  where
    later : ((a == p) ≡ true) ⊎ ((a == p) ≡ false) → a ≡ x → ⊥
    later (inl e) q =
        let r : p ≡ x = sym ((==_iff a p).0 e) ∙ q in
        let t : less x x ≡ true = subst (λ z. less z x ≡ true) r h in ground (arith, irrefl x)
    later (inr e) q =
        let t : less p a ≡ false = All-mem (λ y. less y a ≡ false) order p s.0 (ground arith) in
        let t' : less p x ≡ false = subst (λ z. less p z ≡ false) q t in ground arith

module _ (insts : List SymbolInstance) (rank : ℕ → ℕ) where
  abbrev order : List ℕ
  order = order_of insts rank

  derived_outside : (x : ℕ) → ltb x (length insts) ≡ false → derived_parents insts rank x ≡ none
  unfolding derived_parents
  derived_outside x h =
      sweep_other (outermost_first insts rank) (within insts rank) order [] (λ _. none) x
        (mem-order_of insts rank x ∙ h)

  derived_inside :
      (x p : ℕ)
      → x < length insts
      → derived_parents insts rank x ≡ some p
      → (p < length insts) × (outermost_first insts rank p x ≡ true)
  derived_inside x p l e =
      let i = rw e at (derived_parents-IsInnermost insts rank x l) in
      (ground (arith, i.0), outermost_first-of-within insts rank p x i.1)

  pub derived_parents_bounded :
      (x p : ℕ) → derived_parents insts rank x ≡ some p → (x < length insts) × (p < length insts)
  derived_parents_bounded x p e = elim (Bool-cases (ltb x (length insts))) [
    | inl l ↦ (ground arith, (derived_inside x p (ground arith) e).0)
    | inr l ↦ absurd (ground (arith, derived_outside x l))
  ]

  pub stated_parents_bounded :
      (stated : Map ℕ ℕ) (x p : ℕ)
      → stated_parents insts rank stated x ≡ some p
      → (x < length insts) × (p < length insts)
  unfolding stated_parents
  stated_parents_bounded stated =
      apply_stated_bounded (length insts) stated (derived_parents insts rank)
        derived_parents_bounded

  Chain-from :
      (fuel x : ℕ)
      → x < length insts
      → position x order < fuel
      → (ps : List ℕ) × Chain (derived_parents insts rank) x ps
  Chain-from zero x l h = absurd (omega arith)
  Chain-from (suc fuel) x l h = elim (Option-cases (derived_parents insts rank x)) [
    | inl e ↦ ([], e)
    | inr (p, e) ↦
        let (b, before) = derived_inside x p l e in
        let less =
          position_lt (outermost_first insts rank) order p x (outermost_first_irrefl insts rank)
            (Sorted-order_of insts rank) (ground (arith, mem-order_of insts rank p))
            (ground (arith, mem-order_of insts rank x)) before in
        let (ps, c) = Chain-from fuel p b (omega arith) in (p ∷ ps, (e, c))
  ]

  -- From every instance of an object the derived parents lead to a root: they never form a circle.
  pub derived_parents-AllRooted : AllRooted (length insts) (derived_parents insts rank)
  derived_parents-AllRooted x l = Chain-from (suc (position x order)) x l (omega arith)
