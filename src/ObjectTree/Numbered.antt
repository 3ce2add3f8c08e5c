-- ===== src/ObjectTree/Numbered.antt =====
-- pkg/index/numbering.go, one run of `childLists` and `numberForest` from a parent array: the run
-- ends, and what it numbers is the forest over the roots of the array.
use askl_golang_indexer.Prelude.{
  ℕ, ◌^◌, ◌≤◌, ◌<◌, ◌≡◌, refl, ◌∙◌, sym, subst, ◌⊎◌, inl, inr, true, Option, none, some, List, [],
  ◌∷◌, ◌++◌, arith, ltb, length, All-of_mem, mem, Distinct,
}
use askl_golang_indexer.Proto.{SymbolInstance}
use askl_golang_indexer.Parentage.{at}
use askl_golang_indexer.Parentage.Kids.{
  kids_of, roots_of, mem-kids_of, mem-roots_of, Distinct-kids_of, Distinct-roots_of,
}
use askl_golang_indexer.Forest.{Counted, fold_step, number_forest}
use askl_golang_indexer.Forest.Shape.{Shape, tops, size, has, Unrepeated, Obeys}
use askl_golang_indexer.Forest.Visit.{visit, number_forest-eq-visit}
use askl_golang_indexer.Forest.Marks.{mark, at-visit, length-visit, numbered-visit}
use askl_golang_indexer.Forest.Chain.{Chain}
use askl_golang_indexer.Forest.Grow.{grow, Siblings, grow-whole, grow-Unrepeated, placed}
use askl_golang_indexer.Forest.Cover.{has-Chain}
use askl_golang_indexer.Forest.Count.{size-le, has-of-size, size-of-has, InRange-of-has}
use askl_golang_indexer.ObjectTree.{number_by}

-- Every instance hangs on a root: no parents lead in a circle.
abbrev pub AllRooted : ℕ → (ℕ → Option ℕ) → Type 0
AllRooted n parent = (y : ℕ) → y < n → (ps : List ℕ) × Chain parent y ps

module _ (insts : List SymbolInstance) (order : List ℕ) (parent : ℕ → Option ℕ)
    (distinct : Distinct order) (members : (y : ℕ) → mem y order ≡ ltb y (length insts))
    (bounded : (x p : ℕ) → parent x ≡ some p → (x < length insts) × (p < length insts)) where
  abbrev pub kids : ℕ → List ℕ
  kids = kids_of parent order

  abbrev pub forest : Shape
  forest = grow kids (length insts) (roots_of parent order)

  abbrev pub start : Counted
  start = record { insts = insts; counter = 0; numbered = 0 }

  abbrev pub finish : Counted
  finish = visit forest 0 0 start

  pub parent_lt : (x p : ℕ) → parent x ≡ some p → p < length insts
  parent_lt x p e = (bounded x p e).1

  pub kids_sound : (x y : ℕ) → mem y (kids x) ≡ true → (parent y ≡ some x) × (y < length insts)
  kids_sound x y m =
      let (o, e) = (mem-kids_of parent order x y).0 m in (e, ground (arith, members y))

  pub listed : (x y : ℕ) → parent y ≡ some x → mem y (kids x) ≡ true
  listed x y e = (mem-kids_of parent order x y).1 (ground (arith, members y, bounded y x e), e)

  pub root_listed :
      (y : ℕ) → parent y ≡ none → y < length insts → mem y (roots_of parent order) ≡ true
  root_listed y e l = (mem-roots_of parent order y).1 (ground (arith, members y), e)

  Siblings-roots :
      Siblings parent
        (length insts)
        parent_lt
        kids
        kids_sound
        (Distinct-kids_of parent order distinct)
        []
        (roots_of parent order)
  Siblings-roots =
      All-of_mem _ (roots_of parent order)
        λ y m. let (o, e) = (mem-roots_of parent order y).0 m in (e, ground (arith, members y))

  pub whole : (tops forest ≡ roots_of parent order) × Obeys kids forest
  whole =
      grow-whole parent (length insts) parent_lt kids kids_sound
        (Distinct-kids_of parent order distinct) (length insts) (roots_of parent order) []
        (omega arith) Siblings-roots

  pub Unrepeated-forest : Unrepeated forest
  Unrepeated-forest =
      grow-Unrepeated parent (length insts) parent_lt kids kids_sound
        (Distinct-kids_of parent order distinct) (length insts) (roots_of parent order) []
        Siblings-roots (Distinct-roots_of parent order distinct)

  has_lt : (y : ℕ) → has y forest ≡ true → y < length insts
  has_lt y h = at_place y (
      placed parent (length insts) parent_lt kids kids_sound
        (Distinct-kids_of parent order distinct) (length insts) (roots_of parent order) [] y
        Siblings-roots h)
    where
      linked : (y : ℕ) (qs : List ℕ) (z : ℕ) → Chain parent y (qs ++ z ∷ []) → y < length insts
      linked y [] z c = (bounded y z c.0).0
      linked y (q ∷ qs) z c = (bounded y q c.0).0

      at_place :
          (y : ℕ)
          → (z : ℕ) × (mem z (roots_of parent order) ≡ true)
            × ((y ≡ z) ⊎ ((qs : List ℕ) × Chain parent y (qs ++ z ∷ [])))
          → y < length insts
      at_place y (z, m, inl e) =
          let l : z < length insts =
            ground (arith, members z, ((mem-roots_of parent order z).0 m).0) in
          ground arith
      at_place y (z, m, inr (qs, c)) = linked y qs z c

  pub size-forest-le : size forest ≤ length insts
  size-forest-le = size-le forest (length insts) Unrepeated-forest has_lt

  -- The run ends, whatever the parent array is.
  pub number_by-eq-visit : number_by insts order parent ≡ some (finish, roots_of parent order)
  unfolding number_by
  number_by-eq-visit =
      let e = number_forest-eq-visit insts kids forest size-forest-le whole.1 Unrepeated-forest in
      rw (subst (λ roots. number_forest insts kids roots ≡ some finish) whole.0 e, number_by)

  pub numbered-finish : finish.numbered ≡ size forest
  numbered-finish = numbered-visit forest 0 0 start ∙ omega arith

  abbrev pub Rooted : Type 0
  Rooted = AllRooted (length insts) parent

  pub rooted_has : Rooted → (y : ℕ) → y < length insts → has y forest ≡ true
  rooted_has r y l =
      let (ps, c) = r y l in
      has-Chain parent kids (λ a b m. (kids_sound a b m).0) listed (length insts) forest y ps
        whole.1 parent_lt (λ z e k. rw whole.0 (root_listed z e k)) l c

  -- Full numbering is the same as that.
  pub size-of_Rooted : Rooted → size forest ≡ length insts
  size-of_Rooted r = omega (arith, size-forest-le, size-of-has forest (length insts) (rooted_has r))

  pub Rooted-of_size : size forest ≡ length insts → Rooted
  Rooted-of_size e y l = chain_at y (
      placed parent (length insts) parent_lt kids kids_sound
        (Distinct-kids_of parent order distinct) (length insts) (roots_of parent order) [] y
        Siblings-roots (has-of-size forest (length insts) Unrepeated-forest has_lt e y l))
    where
      chain_at :
          (y : ℕ)
          → (z : ℕ) × (mem z (roots_of parent order) ≡ true)
            × ((y ≡ z) ⊎ ((qs : List ℕ) × Chain parent y (qs ++ z ∷ [])))
          → (ps : List ℕ) × Chain parent y ps
      chain_at y (z, m, inl e) =
          ([], subst (λ w. parent w ≡ none) (sym e) ((mem-roots_of parent order z).0 m).1)
      chain_at y (z, m, inr (qs, c)) = (qs ++ z ∷ [], c)

  -- What the numbers of an instance are, in terms of the forest.
  module _ (small : length insts < 2 ^ 31) where
    abbrev pub step : ℕ → ℕ
    step y = fold_step (at insts y)

    pub at-finish :
        (y : ℕ) → has y forest ≡ true → at finish.insts y ≡ mark step forest 0 0 0 y (at insts y)
    at-finish y h =
        at-visit step forest 0 0 start y
          (record {
            room = omega (arith, size-forest-le);
            levels = omega (arith, size-forest-le);
            fold_room = omega (arith, size-forest-le);
            in_range = InRange-of-has forest (length insts) has_lt;
            steps = λ z. refl;
          })
          Unrepeated-forest h

  pub length-finish : length finish.insts ≡ length insts
  length-finish = length-visit forest 0 0 start
