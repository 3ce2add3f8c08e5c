-- ===== src/Forest/Visit.antt =====
-- pkg/index/numbering.go, `numberForest`: the loop over frames does what a recursion over the forest
-- does, in two steps for each instance.
use askl_golang_indexer.Prelude.{
  ℕ, zero, suc, ◌+◌, ◌*◌, ◌-◌, ◌≤◌, ◌<◌, ◌≡◌, refl, ◌∙◌, ap, subst, false, none, some, List, [],
  ◌∷◌, arith, ◌==◌, if◌then◌else◌, length, get_elem?, set,
}
use askl_golang_indexer.Proto.{SymbolInstance}
use askl_golang_indexer.Parentage.{at}
use askl_golang_indexer.Forest.{
  add32, fold_step, Counted, enter, leave, enter_child, walk, number_roots, number_forest,
}
use askl_golang_indexer.Forest.Shape.{Shape, empty, node, tops, size, has, Unrepeated, Obeys}

abbrev pub kid_level : SymbolInstance → ℕ
kid_level inst = add32 inst.nesting_level 1

abbrev pub kid_fold : SymbolInstance → ℕ
kid_fold inst = add32 inst.fold_depth (fold_step inst)

unfoldable pub visit : Shape → ℕ → ℕ → Counted → Counted
visit empty level fold s = s
visit (node x kids rest) level fold s =
    let s1 = enter x level fold s in
    let s2 = visit kids (kid_level (at s1.insts x)) (kid_fold (at s1.insts x)) s1 in
    visit rest level fold (leave x s2)

pub at-set :
    (insts : List SymbolInstance) (x y : ℕ) (v : SymbolInstance)
    → x < length insts
    → at (set insts x v) y ≡ (if x == y then v else at insts y)
at-set [] x y v h = absurd (omega arith)
at-set (i ∷ insts) zero zero v h = refl
at-set (i ∷ insts) zero (suc y) v h = ground arith
at-set (i ∷ insts) (suc x) zero v h = ground arith
at-set (i ∷ insts) (suc x) (suc y) v h = ground (arith, at-set insts x y v)

-- Also out of range: a write elsewhere changes nothing.
pub at-set_other :
    (insts : List SymbolInstance) (x y : ℕ) (v : SymbolInstance)
    → (x == y) ≡ false
    → at (set insts x v) y ≡ at insts y
at-set_other [] x y v h = refl
at-set_other (i ∷ insts) zero zero v h = ground arith
at-set_other (i ∷ insts) zero (suc y) v h = refl
at-set_other (i ∷ insts) (suc x) zero v h = refl
at-set_other (i ∷ insts) (suc x) (suc y) v h = at-set_other insts x y v (ground arith)

pub visit_other :
    (f : Shape) (level fold : ℕ) (s : Counted) (y : ℕ)
    → has y f ≡ false
    → at (visit f level fold s).insts y ≡ at s.insts y
unfolding visit
visit_other empty level fold s y h = refl
visit_other (node x kids rest) level fold s y h =
    let s1 = enter x level fold s in
    let s2 = visit kids (kid_level (at s1.insts x)) (kid_fold (at s1.insts x)) s1 in
    visit_other rest level fold (leave x s2) y (ground arith)
    ∙ at-set_other s2.insts x y _ (ground arith)
    ∙ visit_other kids (kid_level (at s1.insts x)) (kid_fold (at s1.insts x)) s1 y (ground arith)
    ∙ at-set_other s.insts x y _ (ground arith)

-- What is left of a list from a position.
abbrev From : List ℕ → ℕ → List ℕ → Type 0
From xs i ys = (j : ℕ) → get_elem? xs (i + j) ≡ get_elem? ys j

From-zero : (xs : List ℕ) → From xs 0 xs
From-zero xs j = ap (get_elem? xs) (omega arith)

From-suc : (xs : List ℕ) (i y : ℕ) (ys : List ℕ) → From xs i (y ∷ ys) → From xs (suc i) ys
From-suc xs i y ys h j = ap (get_elem? xs) (omega arith) ∙ h (suc j)

From-head : (xs : List ℕ) (i y : ℕ) (ys : List ℕ) → From xs i (y ∷ ys) → get_elem? xs i ≡ some y
From-head xs i y ys h = ap (get_elem? xs) (omega arith) ∙ h 0

From-end : (xs : List ℕ) (i : ℕ) → From xs i [] → get_elem? xs i ≡ none
From-end xs i h = ap (get_elem? xs) (omega arith) ∙ h 0

abbrev after : (f : Shape) → ℕ → Counted → Counted
after f p s = visit f (kid_level (at s.insts p)) (kid_fold (at s.insts p)) s

module _ (kids : ℕ → List ℕ) where
  walk_down :
      (p i c fuel : ℕ) (frames : List (ℕ × ℕ)) (s : Counted)
      → get_elem? (kids p) i ≡ some c
      → walk kids (suc fuel) ((p, i) ∷ frames) s
        ≡ walk kids fuel ((c, 0) ∷ (p, suc i) ∷ frames) (enter_child p c s)
  unfolding walk
  walk_down p i c fuel frames s e = rw (e, walk)

  walk_up :
      (p i fuel : ℕ) (frames : List (ℕ × ℕ)) (s : Counted)
      → get_elem? (kids p) i ≡ none
      → walk kids (suc fuel) ((p, i) ∷ frames) s ≡ walk kids fuel frames (leave p s)
  unfolding walk
  walk_up p i fuel frames s e = rw (e, walk)

  walk_nil : (fuel : ℕ) (s : Counted) → walk kids fuel [] s ≡ some s
  unfolding walk
  walk_nil zero s = refl
  walk_nil (suc fuel) s = refl

  -- The loop, at the frame of `p` whose children from position `i` are the tops of `f`, walks `f`
  -- and then closes `p`.
  pub walk_frame :
      (f : Shape) (p i fuel fuel' : ℕ) (frames : List (ℕ × ℕ)) (s : Counted)
      → fuel ≡ 2 * size f + suc fuel'
      → From (kids p) i (tops f)
      → Obeys kids f
      → Unrepeated f
      → has p f ≡ false
      → walk kids fuel ((p, i) ∷ frames) s ≡ walk kids fuel' frames (leave p (after f p s))
  unfolding visit
  walk_frame f p i zero fuel' frames s e h o u n = absurd (omega arith)
  walk_frame empty p i (suc fuel) fuel' frames s e h o u n =
      walk_up p i fuel frames s (From-end (kids p) i h)
      ∙ ap (λ k. walk kids k frames (leave p s)) (omega arith)
  walk_frame (node x below rest) p i (suc fuel) fuel' frames s e h o u n =
      let s1 = enter_child p x s in
      let s3 = leave x (after below x s1) in
      let same : at s3.insts p ≡ at s.insts p =
        at-set_other (after below x s1).insts x p _ (ground arith)
        ∙ visit_other below (kid_level (at s1.insts x)) (kid_fold (at s1.insts x)) s1 p
            (ground arith)
        ∙ at-set_other s.insts x p _ (ground arith) in
      walk_down p i x fuel frames s (From-head (kids p) i x (tops rest) h)
      ∙ walk_frame below x 0 fuel (2 * size rest + suc fuel') ((p, suc i) ∷ frames) s1 (omega arith)
          (subst (λ xs. From xs 0 (tops below)) o.0 (From-zero (tops below))) o.1 u.3 u.0
      ∙ walk_frame rest p (suc i) (2 * size rest + suc fuel') fuel' frames s3 refl
          (From-suc (kids p) i x (tops rest) h) o.2 u.4 (ground arith)
      ∙ ap
          (λ inst.
            walk kids fuel' frames (leave p (visit rest (kid_level inst) (kid_fold inst) s3)))
          same

  number_roots_lem :
      (f : Shape) (fuel : ℕ) (s : Counted)
      → 2 * size f ≤ fuel
      → Obeys kids f
      → Unrepeated f
      → number_roots kids fuel (tops f) s ≡ some (visit f 0 0 s)
  unfolding number_roots visit
  number_roots_lem empty fuel s e o u = refl
  number_roots_lem (node x below rest) fuel s e o u =
      let s1 = enter x 0 0 s in
      let fuel' = fuel - 2 * size below - 1 in
      let walked : walk kids fuel ((x, 0) ∷ []) s1 ≡ some (leave x (after below x s1)) =
        walk_frame below x 0 fuel fuel' [] s1 (omega arith)
          (subst (λ xs. From xs 0 (tops below)) o.0 (From-zero (tops below))) o.1 u.3 u.0
        ∙ walk_nil fuel' (leave x (after below x s1)) in
      rw (walked, number_roots)
        (number_roots_lem rest fuel (leave x (after below x s1)) (omega arith) o.2 u.4)

-- The loops of `numberForest` end, with the fuel that the model gives them, in the state that the
-- recursion reaches.
pub number_forest-eq-visit :
    (insts : List SymbolInstance) (kids : ℕ → List ℕ) (f : Shape)
    → size f ≤ length insts
    → Obeys kids f
    → Unrepeated f
    → number_forest insts kids (tops f)
      ≡ some (visit f 0 0 (record { insts = insts; counter = 0; numbered = 0 }))
unfolding number_forest
number_forest-eq-visit insts kids f h o u =
    number_roots_lem kids f (2 * length insts) _ (omega arith) o u
