-- ===== src/ObjectTree/Numbering.antt =====
-- What a numbering of the containment tree promises (the comments of pkg/index/numbering.go and the
-- fields of proto/index.proto), and that one run over a rooted parent array delivers it.
use askl_golang_indexer.Prelude.{
  ℕ, suc, ◌+◌, ◌*◌, ◌^◌, ◌≤◌, ◌<◌, ◌≡◌, refl, ◌∙◌, ap, ◌⊎◌, inl, inr, ◌↔◌, true, false, Option,
  none, some, List, arith, ltb, ◌==◌, length, mem, Distinct, Bool-cases,
}
use askl_golang_indexer.Proto.{SymbolInstance}
use askl_golang_indexer.Parentage.{at}
use askl_golang_indexer.Parentage.Kids.{kids_of}
use askl_golang_indexer.Forest.{fold_step, reset}
use askl_golang_indexer.Forest.Shape.{Shape, tops, size, has, Unrepeated, Obeys, below_in}
use askl_golang_indexer.Forest.Marks.{marked, entry, exit, depth, folds}
use askl_golang_indexer.Forest.Cover.{Ancestor, below_in-Ancestor, Ancestor-below_in}
use askl_golang_indexer.Forest.Nested.{interval_bounds, nested, depth-le}
use askl_golang_indexer.Forest.Levels.{disjoint, top_level, kid_level, folds-le}
use askl_golang_indexer.ObjectTree.Numbered.{
  forest, finish, kids_sound, listed, whole, Unrepeated-forest, Rooted, rooted_has, at-finish,
  root_listed, length-finish, size-forest-le,
}

-- Containment as the index encodes it: `X.DfsEnter < Y.DfsEnter < X.DfsExit`.
abbrev pub Contained : List SymbolInstance → ℕ → ℕ → Type 0
Contained insts x y =
    ((at insts x).dfs_enter < (at insts y).dfs_enter)
    × ((at insts y).dfs_enter < (at insts x).dfs_exit)

abbrev pub Disjoint : List SymbolInstance → ℕ → ℕ → Type 0
Disjoint insts x y =
    ((at insts x).dfs_exit < (at insts y).dfs_enter)
    ⊎ ((at insts y).dfs_exit < (at insts x).dfs_enter)

pub record IsNumbering (insts : List SymbolInstance) (parent : ℕ → Option ℕ)
    (result : List SymbolInstance) : Type 0 where
  -- no instance is added, moved or changed beside its numbers
  pub same_length : length result ≡ length insts
  pub kept :
      (x : ℕ)
      → x < length insts
      → at result x
        ≡ marked
            (at insts x)
            (at result x).dfs_enter
            (at result x).dfs_exit
            (at result x).nesting_level
            (at result x).fold_depth
  -- one is contained in another exactly if it descends from it
  pub contained_iff :
      (x y : ℕ) → x < length insts → y < length insts → Contained result x y ↔ Ancestor parent x y
  -- and else their intervals are disjoint
  pub apart :
      (x y : ℕ)
      → x < length insts
      → y < length insts
      → (x == y) ≡ false
      → ¬ Ancestor parent x y
      → ¬ Ancestor parent y x
      → Disjoint result x y
  -- every interval holds a stride, above 0
  pub wide :
      (x : ℕ)
      → x < length insts
      → (1024 ≤ (at result x).dfs_enter) × ((at result x).dfs_enter + 1024 ≤ (at result x).dfs_exit)
  -- and no number is near the end of its type
  pub within_bounds :
      (x : ℕ)
      → x < length insts
      → ((at result x).dfs_exit ≤ 2048 * length insts)
        × ((at result x).nesting_level < length insts)
        × ((at result x).fold_depth ≤ (at result x).nesting_level)
  -- the depths of a root, and of a child
  pub at_root :
      (x : ℕ)
      → x < length insts
      → parent x ≡ none
      → ((at result x).nesting_level ≡ 0) × ((at result x).fold_depth ≡ 0)
  pub at_child :
      (x p : ℕ)
      → parent x ≡ some p
      → ((at result x).nesting_level ≡ suc (at result p).nesting_level)
        × ((at result x).fold_depth ≡ (at result p).fold_depth + fold_step (at insts p))

module _ (insts : List SymbolInstance) (order : List ℕ) (parent : ℕ → Option ℕ)
    (distinct : Distinct order) (members : (y : ℕ) → mem y order ≡ ltb y (length insts))
    (bounded : (x p : ℕ) → parent x ≡ some p → (x < length insts) × (p < length insts))
    (rooted : Rooted insts order parent distinct members bounded)
    (small : length insts < 2 ^ 31) where
  abbrev shape : Shape
  shape = forest insts order parent distinct members bounded

  abbrev result : List SymbolInstance
  result = (finish insts order parent distinct members bounded).insts

  here : (x : ℕ) → x < length insts → has x shape ≡ true
  here = rooted_has insts order parent distinct members bounded rooted

  unrepeated : Unrepeated shape
  unrepeated = Unrepeated-forest insts order parent distinct members bounded

  obeys : Obeys (kids_of parent order) shape
  obeys = (whole insts order parent distinct members bounded).1

  sound : (x y : ℕ) → mem y (kids_of parent order x) ≡ true → parent y ≡ some x
  sound x y m = (kids_sound insts order parent distinct members bounded x y m).0

  numbers :
      (x : ℕ)
      → x < length insts
      → at result x
        ≡ marked
            (at insts x)
            (entry shape 0 x)
            (exit shape 0 x)
            (depth shape 0 x)
            (folds (λ y. fold_step (at insts y)) shape 0 x)
  numbers x l = at-finish insts order parent distinct members bounded small x (here x l)

  below_iff : (x y : ℕ) → x < length insts → (below_in shape x y ≡ true) ↔ Ancestor parent x y
  below_iff x y l = (
    below_in-Ancestor parent (kids_of parent order) sound shape x y obeys,
    Ancestor-below_in parent (kids_of parent order) sound
        (listed insts order parent distinct members bounded) shape x y obeys (here x l),
  )

  not_below : (x y : ℕ) → x < length insts → ¬ Ancestor parent x y → below_in shape x y ≡ false
  not_below x y l n = elim (Bool-cases (below_in shape x y)) [
    | inl b ↦ absurd (n ((below_iff x y l).0 b))
    | inr b ↦ b
  ]

  Contained-finish :
      (x y : ℕ) → x < length insts → y < length insts → Contained result x y ↔ Ancestor parent x y
  Contained-finish x y l k =
      rw (numbers x l, numbers y k)
        (
          λ c. (below_iff x y l).0 ((nested shape 0 x y unrepeated (here x l) (here y k)).0 c),
          λ a. (nested shape 0 x y unrepeated (here x l) (here y k)).1 ((below_iff x y l).1 a),
        )

  abbrev steps : ℕ → ℕ
  steps y = fold_step (at insts y)

  step_le : (y : ℕ) → steps y ≤ 1
  step_le y = ground arith

  size_le : size shape ≤ length insts
  size_le = size-forest-le insts order parent distinct members bounded

  top_of : (x : ℕ) → x < length insts → parent x ≡ none → mem x (tops shape) ≡ true
  top_of x l e =
      rw ((whole insts order parent distinct members bounded).0)
        (root_listed insts order parent distinct members bounded x e l)

  pub finish-IsNumbering : IsNumbering insts parent result
  finish-IsNumbering = record {
    same_length = length-finish insts order parent distinct members bounded;
    kept = λ x l. rw (numbers x l) refl;
    contained_iff = Contained-finish;
    apart = λ x y l k e n m.
        rw (numbers x l, numbers y k)
          (disjoint shape 0 x y unrepeated (here x l) (here y k) e (not_below x y l n)
            (not_below y x k m));
    wide = λ x l. rw (numbers x l) (omega (arith, interval_bounds shape 0 x (here x l)));
    within_bounds = λ x l. rw (numbers x l) (
        omega (
          arith,
          size_le,
          interval_bounds shape 0 x (here x l),
          depth-le shape 0 x (here x l),
          folds-le steps shape 0 0 x step_le (here x l),
        ));
    at_root = λ x l e. rw (numbers x l) (top_level steps shape 0 0 x unrepeated (top_of x l e));
    at_child = λ x p e.
        rw (numbers x (bounded x p e).0, numbers p (bounded x p e).1)
          (kid_level steps (kids_of parent order) shape 0 0 p x obeys unrepeated
            (here p (bounded x p e).1) (listed insts order parent distinct members bounded p x e));
  }

-- The promise does not depend on what the numbers were before.
pub IsNumbering-rebase :
    (insts insts' : List SymbolInstance) (parent : ℕ → Option ℕ) (result : List SymbolInstance)
    → length insts' ≡ length insts
    → ((x : ℕ) → reset (at insts' x) ≡ reset (at insts x))
    → IsNumbering insts' parent result
    → IsNumbering insts parent result
IsNumbering-rebase insts insts' parent result n same r = record {
  same_length = r.same_length ∙ n;
  kept = λ x l.
      r.kept x (rw n l)
      ∙ ap
          (λ i.
            marked i (at result x).dfs_enter (at result x).dfs_exit (at result x).nesting_level
              (at result x).fold_depth)
          (same x);
  contained_iff = λ x y l k. r.contained_iff x y (rw n l) (rw n k);
  apart = λ x y l k. r.apart x y (rw n l) (rw n k);
  wide = λ x l. r.wide x (rw n l);
  within_bounds = λ x l. rw n at (r.within_bounds x (rw n l));
  at_root = λ x l. r.at_root x (rw n l);
  at_child = λ x p e.
      let (level, fold) = r.at_child x p e in
      (level, fold ∙ ap (λ i. (at result p).fold_depth + fold_step i) (same p));
}
