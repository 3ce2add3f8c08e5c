-- ===== src/Forest/Marks.antt =====
-- The numbers that the walk of pkg/index/numbering.go gives each instance, as functions of the forest.
use askl_golang_indexer.Prelude.{
  ℕ, zero, suc, ◌+◌, ◌*◌, ◌^◌, ◌≤◌, ◌<◌, ◌≡◌, refl, ◌∙◌, ap, sym, subst, true, false, List, [], ◌∷◌,
  arith, ◌==◌, ==_iff, if◌then◌else◌, length, length-set, set, Bool-cases, inl, inr,
}
use askl_golang_indexer.Proto.{SymbolInstance}
use askl_golang_indexer.Parentage.{at}
use askl_golang_indexer.Forest.{fold_step, reset, Counted, enter, leave}
use askl_golang_indexer.Forest.Shape.{Shape, empty, node, size, has, Unrepeated}
use askl_golang_indexer.Forest.Visit.{kid_level, kid_fold, visit, at-set, at-set_other, visit_other}

abbrev pub entry : Shape → ℕ → ℕ → ℕ
entry empty c y = 0
entry (node x kids rest) c y =
    if x == y
    then c + 1024
    else if has y kids
    then entry kids (c + 1024) y
    else entry rest (c + 2048 * suc (size kids)) y

abbrev pub exit : Shape → ℕ → ℕ → ℕ
exit empty c y = 0
exit (node x kids rest) c y =
    if x == y
    then c + 2048 * suc (size kids)
    else if has y kids
    then exit kids (c + 1024) y
    else exit rest (c + 2048 * suc (size kids)) y

abbrev pub depth : Shape → ℕ → ℕ → ℕ
depth empty l y = 0
depth (node x kids rest) l y =
    if x == y then l else if has y kids then depth kids (suc l) y else depth rest l y

-- The fold depth, where `step` says which instances are generated boundaries.
abbrev pub folds : (ℕ → ℕ) → Shape → ℕ → ℕ → ℕ
folds step empty d y = 0
folds step (node x kids rest) d y =
    if x == y then d else if has y kids then folds step kids (d + step x) y else folds step rest d y

abbrev pub InRange : Shape → ℕ → Type 0
InRange empty n = Unit
InRange (node x kids rest) n = (x < n) × InRange kids n × InRange rest n

pub length-visit :
    (f : Shape) (level fold : ℕ) (s : Counted)
    → length (visit f level fold s).insts ≡ length s.insts
unfolding visit
length-visit empty level fold s = refl
length-visit (node x kids rest) level fold s =
    let s1 = enter x level fold s in
    let s2 = visit kids (kid_level (at s1.insts x)) (kid_fold (at s1.insts x)) s1 in
    length-visit rest level fold (leave x s2)
    ∙ length-set s2.insts x _
    ∙ length-visit kids (kid_level (at s1.insts x)) (kid_fold (at s1.insts x)) s1
    ∙ length-set s.insts x _

pub numbered-visit :
    (f : Shape) (level fold : ℕ) (s : Counted)
    → (visit f level fold s).numbered ≡ s.numbered + size f
unfolding visit
numbered-visit empty level fold s = omega arith
numbered-visit (node x kids rest) level fold s =
    let s1 = enter x level fold s in
    let s2 = visit kids (kid_level (at s1.insts x)) (kid_fold (at s1.insts x)) s1 in
    omega (
      arith,
      numbered-visit rest level fold (leave x s2),
      numbered-visit kids (kid_level (at s1.insts x)) (kid_fold (at s1.insts x)) s1,
    )

pub counter-visit :
    (f : Shape) (level fold : ℕ) (s : Counted)
    → s.counter + 2048 * size f < 2 ^ 63
    → (visit f level fold s).counter ≡ s.counter + 2048 * size f
unfolding visit
counter-visit empty level fold s h = omega arith
counter-visit (node x kids rest) level fold s h =
    let s1 = enter x level fold s in
    let s2 = visit kids (kid_level (at s1.insts x)) (kid_fold (at s1.insts x)) s1 in
    let c1 : s1.counter ≡ s.counter + 1024 = omega arith in
    let c2 : s2.counter ≡ s1.counter + 2048 * size kids =
      counter-visit kids (kid_level (at s1.insts x)) (kid_fold (at s1.insts x)) s1 (omega arith) in
    let c3 : (leave x s2).counter ≡ s2.counter + 1024 = omega arith in
    omega (arith, counter-visit rest level fold (leave x s2) (omega arith))

reset-set :
    (insts : List SymbolInstance) (x y : ℕ) (v : SymbolInstance)
    → reset v ≡ reset (at insts x)
    → reset (at (set insts x v) y) ≡ reset (at insts y)
reset-set [] x y v h = refl
reset-set (i ∷ insts) zero zero v h = h
reset-set (i ∷ insts) zero (suc y) v h = refl
reset-set (i ∷ insts) (suc x) zero v h = refl
reset-set (i ∷ insts) (suc x) (suc y) v h = reset-set insts x y v h

-- The walk changes nothing but the four numbers.
pub reset-visit :
    (f : Shape) (level fold : ℕ) (s : Counted) (y : ℕ)
    → reset (at (visit f level fold s).insts y) ≡ reset (at s.insts y)
unfolding visit
reset-visit empty level fold s y = refl
reset-visit (node x kids rest) level fold s y =
    let s1 = enter x level fold s in
    let s2 = visit kids (kid_level (at s1.insts x)) (kid_fold (at s1.insts x)) s1 in
    reset-visit rest level fold (leave x s2) y
    ∙ reset-set s2.insts x y _ refl
    ∙ reset-visit kids (kid_level (at s1.insts x)) (kid_fold (at s1.insts x)) s1 y
    ∙ reset-set s.insts x y _ refl

abbrev pub marked : SymbolInstance → ℕ → ℕ → ℕ → ℕ → SymbolInstance
marked inst en ex lev fol = record inst {
  dfs_enter = en;
  dfs_exit = ex;
  nesting_level = lev;
  fold_depth = fol;
}

module _ (step : ℕ → ℕ) where
  abbrev pub mark : Shape → ℕ → ℕ → ℕ → ℕ → SymbolInstance → SymbolInstance
  mark f c l d y inst = marked inst (entry f c y) (exit f c y) (depth f l y) (folds step f d y)

  -- Nothing overflows, and `step` reads the instances.
  pub record Fits (f : Shape) (l d : ℕ) (s : Counted) : Type 0 where
    pub room : s.counter + 2048 * size f < 2 ^ 63
    pub levels : l + size f < 2 ^ 31
    pub fold_room : d + size f < 2 ^ 31
    pub in_range : InRange f (length s.insts)
    pub steps : (y : ℕ) → fold_step (at s.insts y) ≡ step y

  module _ (x : ℕ) (kids rest : Shape) (l d : ℕ) (s : Counted)
      (h : Fits (node x kids rest) l d s) where
    abbrev entered : Counted
    entered = enter x l d s

    abbrev filled : Counted
    filled = visit kids (suc l) (d + step x) entered

    abbrev left : Counted
    left = leave x filled

    at-entered :
        at entered.insts x
        ≡ record (at s.insts x) { dfs_enter = s.counter + 1024; nesting_level = l; fold_depth = d }
    at-entered = at-set s.insts x x _ h.in_range.0 ∙ ground (arith, h.room)

    step-le : step x ≤ 1
    step-le = ground (arith, h.steps x)

    visit-node : visit (node x kids rest) l d s ≡ visit rest l d left
    unfolding visit
    visit-node =
        let level : kid_level (at entered.insts x) ≡ suc l =
          ap kid_level at-entered ∙ omega (arith, h.levels) in
        let fold : kid_fold (at entered.insts x) ≡ d + step x =
          ap kid_fold at-entered ∙ omega (arith, h.fold_room, h.steps x, step-le) in
        cc

    entered_steps : (y : ℕ) → fold_step (at entered.insts y) ≡ step y
    entered_steps y = ap fold_step (reset-set s.insts x y _ refl) ∙ h.steps y

    Fits-kids : Fits kids (suc l) (d + step x) entered
    Fits-kids = record {
      room = omega (arith, h.room);
      levels = omega (arith, h.levels);
      fold_room = omega (arith, h.fold_room, step-le);
      in_range = subst (InRange kids) (sym (length-set s.insts x _)) h.in_range.1;
      steps = entered_steps;
    }

    counter-filled : filled.counter ≡ s.counter + 1024 + 2048 * size kids
    counter-filled =
        counter-visit kids (suc l) (d + step x) entered (omega (arith, h.room))
        ∙ omega (arith, h.room)

    counter-left : left.counter ≡ s.counter + 2048 * suc (size kids)
    counter-left = omega (arith, counter-filled, h.room)

    Fits-rest : Fits rest l d left
    Fits-rest = record {
      room = omega (arith, counter-left, h.room);
      levels = omega (arith, h.levels);
      fold_room = omega (arith, h.fold_room);
      in_range =
          subst (InRange rest)
            (sym (
              length-set filled.insts x _
              ∙ length-visit kids (suc l) (d + step x) entered
              ∙ length-set s.insts x _))
            h.in_range.2;
      steps = λ y.
          ap fold_step
            (reset-set filled.insts x y _ refl ∙ reset-visit kids (suc l) (d + step x) entered y)
          ∙ entered_steps y;
    }

    length-filled : length filled.insts ≡ length s.insts
    length-filled = length-visit kids (suc l) (d + step x) entered ∙ length-set s.insts x _

    at-left :
        has x kids ≡ false
        → at left.insts x
          ≡ marked (at s.insts x) (s.counter + 1024) (s.counter + 2048 * suc (size kids)) l d
    at-left n =
        at-set filled.insts x x _ (rw length-filled h.in_range.0)
        ∙ ground (
          arith,
          visit_other kids (suc l) (d + step x) entered x n,
          at-entered,
          counter-filled,
          h.room,
        )

    at-left_other : (y : ℕ) → (x == y) ≡ false → at left.insts y ≡ at filled.insts y
    at-left_other y n = at-set_other filled.insts x y _ n

    at-visit_self :
        (y : ℕ)
        → has x kids ≡ false
        → has x rest ≡ false
        → (x == y) ≡ true
        → at (visit (node x kids rest) l d s).insts y
          ≡ mark (node x kids rest) s.counter l d y (at s.insts y)
    at-visit_self y n m e = rw (visit-node, e) (subst at_y ((==_iff x y).0 e) at_x)
      where
        at_y : ℕ → Type 0
        at_y z =
            at (visit rest l d left).insts z
            ≡ marked (at s.insts z) (s.counter + 1024) (s.counter + 2048 * suc (size kids)) l d

        at_x : at_y x
        at_x = visit_other rest l d left x m ∙ at-left n

    at-visit_inside :
        (y : ℕ)
        → (x == y) ≡ false
        → has y kids ≡ true
        → has y rest ≡ false
        → at filled.insts y ≡ mark kids entered.counter (suc l) (d + step x) y (at entered.insts y)
        → at (visit (node x kids rest) l d s).insts y
          ≡ mark (node x kids rest) s.counter l d y (at s.insts y)
    at-visit_inside y n m o ih =
        rw (visit-node, n, m)
          (visit_other rest l d left y o
            ∙ at-left_other y n
            ∙ ih
            ∙ ap (mark kids entered.counter (suc l) (d + step x) y) (at-set_other s.insts x y _ n)
            ∙ ap (λ c. mark kids c (suc l) (d + step x) y (at s.insts y)) (omega (arith, h.room)))

    at-visit_later :
        (y : ℕ)
        → (x == y) ≡ false
        → has y kids ≡ false
        → at (visit rest l d left).insts y ≡ mark rest left.counter l d y (at left.insts y)
        → at (visit (node x kids rest) l d s).insts y
          ≡ mark (node x kids rest) s.counter l d y (at s.insts y)
    at-visit_later y n m ih =
        rw (visit-node, n, m)
          (ih
            ∙ ap (mark rest left.counter l d y) (
                at-left_other y n
                ∙ visit_other kids (suc l) (d + step x) entered y m
                ∙ at-set_other s.insts x y _ n)
            ∙ ap (λ c. mark rest c l d y (at s.insts y)) counter-left)

  -- Each instance of the forest gets the numbers of its place, and keeps all else.
  pub at-visit :
      (f : Shape) (l d : ℕ) (s : Counted) (y : ℕ)
      → Fits f l d s
      → Unrepeated f
      → has y f ≡ true
      → at (visit f l d s).insts y ≡ mark f s.counter l d y (at s.insts y)
  at-visit empty l d s y h u m = absurd (ground arith)
  at-visit (node x kids rest) l d s y h u m = elim (Bool-cases (x == y)) [
    | inl self ↦ at-visit_self x kids rest l d s h y u.0 u.1 self
    | inr apart ↦ elim (Bool-cases (has y kids)) [
      | inl inside ↦ at-visit_inside x kids rest l d s h y apart inside (u.2 y inside) (
          at-visit kids (suc l) (d + step x) (entered x kids rest l d s h) y
            (Fits-kids x kids rest l d s h) u.3 inside)
      | inr later ↦ at-visit_later x kids rest l d s h y apart later (
          at-visit rest l d (left x kids rest l d s h) y (Fits-rest x kids rest l d s h) u.4
            (ground arith))
    ]
  ]
