-- ===== src/ObjectTree/Correct.antt =====
-- pkg/index/numbering.go, `numberObjectTree` as a whole.
use askl_golang_indexer.Prelude.{
  ℕ, ◌^◌, ◌<◌, ◌≡◌, refl, subst, ◌⊎◌, inl, inr, ◌↔◌, true, false, Option, some, List, [], ◌∷◌,
  arith, ◌==◌, length, Map, Bool-cases,
}
use askl_golang_indexer.Proto.{SymbolInstance, Object}
use askl_golang_indexer.Parentage.{at, order_of, within, rank_of, contains, apply_stated}
use askl_golang_indexer.Parentage.Order.{outermost_first-of-within, within_trans}
use askl_golang_indexer.Forest.{Counted}
use askl_golang_indexer.Forest.Chain.{Chain}
use askl_golang_indexer.Forest.Cover.{Ancestor, direct, further}
use askl_golang_indexer.RefPoints.{number_refs}
use askl_golang_indexer.ObjectTree.{
  derived_parents, stated_parents, number_instances, number_object_tree,
}
use askl_golang_indexer.ObjectTree.Parents.{derived_parents-IsInnermost}
use askl_golang_indexer.ObjectTree.Acyclic.{
  derived_parents-AllRooted, derived_parents_bounded, stated_parents_bounded,
}
use askl_golang_indexer.ObjectTree.Numbered.{AllRooted}
use askl_golang_indexer.ObjectTree.Numbering.{IsNumbering, Contained}
use askl_golang_indexer.ObjectTree.Total.{Chosen, number_instances_lem}

-- The ranks that `numberObjectTree` computes for an object.
abbrev pub ranks_in : Map ℕ ℕ → Object → ℕ → ℕ
ranks_in ranks obj = rank_of ranks obj.symbol_instances

-- By the stated parents where they form a tree, else by those derived from the ranges.
abbrev pub NumberedBy : Map ℕ ℕ → Map ℕ ℕ → Object → Object → Type 0
NumberedBy ranks stated obj obj' =
    AllRooted (length obj.symbol_instances)
        (stated_parents obj.symbol_instances (ranks_in ranks obj) stated)
      × IsNumbering obj.symbol_instances
          (stated_parents obj.symbol_instances (ranks_in ranks obj) stated) obj'.symbol_instances
    ⊎ (¬ AllRooted (length obj.symbol_instances)
        (stated_parents obj.symbol_instances (ranks_in ranks obj) stated))
      × IsNumbering obj.symbol_instances (derived_parents obj.symbol_instances (ranks_in ranks obj))
          obj'.symbol_instances

-- The number of instances fits an int32.
abbrev pub Fits32 : Object → Type 0
Fits32 obj = length obj.symbol_instances < 2 ^ 31

nothing-IsNumbering :
    (insts : List SymbolInstance) (parent : ℕ → Option ℕ)
    → length insts ≡ 0
    → ((x p : ℕ) → parent x ≡ some p → (x < length insts) × (p < length insts))
    → IsNumbering insts parent insts
nothing-IsNumbering insts parent e b = record {
  same_length = refl;
  kept = λ x l. absurd (omega arith);
  contained_iff = λ x y l k. absurd (omega arith);
  apart = λ x y l k. absurd (omega arith);
  wide = λ x l. absurd (omega arith);
  within_bounds = λ x l. absurd (omega arith);
  at_root = λ x l. absurd (omega arith);
  at_child = λ x p h. absurd (omega (arith, b x p h));
}

module _ (ranks stated : Map ℕ ℕ) (obj : Object) where
  abbrev pub rank : ℕ → ℕ
  rank = ranks_in ranks obj

  abbrev pub object_of : Counted × List ℕ → Object
  object_of out = record obj {
    symbol_instances = out.0.insts;
    refs = number_refs obj.refs out.0.insts (order_of obj.symbol_instances rank) rank out.1;
  }

  -- The steps of the function, read off its result.
  pub tree_of_run :
      (out : Counted × List ℕ)
      → (length obj.symbol_instances == 0) ≡ false
      → number_instances obj.symbol_instances rank stated ≡ some out
      → number_object_tree ranks stated obj ≡ some (object_of out)
  unfolding number_object_tree
  tree_of_run out e run = rw (e, run)

  tree_of_nothing :
      (length obj.symbol_instances == 0) ≡ true → number_object_tree ranks stated obj ≡ some obj
  unfolding number_object_tree
  tree_of_nothing e = rw e

  number_nothing : (length obj.symbol_instances == 0) ≡ true → NumberedBy ranks stated obj obj
  number_nothing e = inl (
    λ y l. absurd (ground arith),
    nothing-IsNumbering obj.symbol_instances _ (ground arith)
        (stated_parents_bounded obj.symbol_instances rank stated),
  )

  Chosen-valid :
      (small : Fits32 obj) (out : Counted × List ℕ) (obj' : Object)
      → obj'.symbol_instances ≡ out.0.insts
      → Chosen obj.symbol_instances rank small stated out
      → NumberedBy ranks stated obj obj'
  Chosen-valid small out obj' e (inl (r, d)) = inl (r, rw e d.valid)
  Chosen-valid small out obj' e (inr (n, d)) = inr (n, rw e d.valid)

  -- Whatever the ranges, the kinds and the stated parents of an object with fewer than 2 ^ 31
  -- instances are, its numbering ends: the result differs from the object in its instances and refs
  -- alone, and the instances are numbered (`IsNumbering`) by the stated parents if those form a
  -- tree over all instances, and else by the parents derived from the ranges.
  pub number_object_tree_valid :
      Fits32 obj
      → (obj' : Object) × (number_object_tree ranks stated obj ≡ some obj')
        × (obj' ≡ record obj { symbol_instances = obj'.symbol_instances; refs = obj'.refs })
        × NumberedBy ranks stated obj obj'
  number_object_tree_valid small = elim (Bool-cases (length obj.symbol_instances == 0)) [
    | inl e ↦ (obj, tree_of_nothing e, refl, number_nothing e)
    | inr e ↦
        let (out, run, done) = number_instances_lem obj.symbol_instances rank small stated in
        (
          object_of out,
          tree_of_run out e run,
          refl,
          Chosen-valid small out (object_of out) refl done,
        )
  ]

-- Where two instances contain a third, one of them contains the other: no two ranges overlap in
-- part, and no range stands twice with one kind.
abbrev pub IsLaminar : List SymbolInstance → (ℕ → ℕ) → Type 0
IsLaminar insts rank =
    (c d x : ℕ)
    → c < length insts
    → d < length insts
    → x < length insts
    → within insts rank c x ≡ true
    → within insts rank d x ≡ true
    → (c == d) ≡ false
    → (within insts rank c d ≡ true) ⊎ (within insts rank d c ≡ true)

module _ (insts : List SymbolInstance) (rank : ℕ → ℕ) where
  abbrev parent : ℕ → Option ℕ
  parent = derived_parents insts rank

  Ancestor-within : (x y : ℕ) → Ancestor parent x y → within insts rank x y ≡ true
  Ancestor-within x y (direct e) =
      (rw e at
        (derived_parents-IsInnermost insts rank y (derived_parents_bounded insts rank y x e).0)).1
  Ancestor-within x y (further {z = z} e a) =
      within_trans insts rank x z y (Ancestor-within x z a)
        (rw e at
          (derived_parents-IsInnermost insts rank y (derived_parents_bounded insts rank y z e).0)).1

  within-Ancestor :
      (x y : ℕ) (ps : List ℕ)
      → IsLaminar insts rank
      → x < length insts
      → y < length insts
      → Chain parent y ps
      → within insts rank x y ≡ true
      → Ancestor parent x y
  within-Ancestor x y [] lam l k c w =
      let none_in = rw c at (derived_parents-IsInnermost insts rank y k) in
      ground (arith, none_in x)
  within-Ancestor x y (p ∷ ps) lam l k c w =
      let (b, wp, last) = rw c.0 at (derived_parents-IsInnermost insts rank y k) in
      elim (Bool-cases (x == p)) [
        | inl e ↦ direct (subst (λ z. parent y ≡ some z) (ground arith) c.0)
        | inr e ↦ elim (lam x p y l (ground arith) k w wp e) [
          | inl h ↦ further c.0 (within-Ancestor x p ps lam l (ground arith) c.1 h)
          | inr h ↦ ground (arith, last x, outermost_first-of-within insts rank p x h)
        ]
      ]

  pub Ancestor-iff_within :
      IsLaminar insts rank
      → (x y : ℕ) → x < length insts
      → y < length insts
      → Ancestor parent x y ↔ (within insts rank x y ≡ true)
  Ancestor-iff_within lam x y l k =
      let (ps, c) = derived_parents-AllRooted insts rank y k in
      (Ancestor-within x y, within-Ancestor x y ps lam l k c)

module _ (ranks : Map ℕ ℕ) (obj obj' : Object) where
  derived_valid :
      Fits32 obj
      → number_object_tree ranks [] obj ≡ some obj'
      → IsNumbering obj.symbol_instances
          (derived_parents obj.symbol_instances (ranks_in ranks obj))
          obj'.symbol_instances
  unfolding stated_parents apply_stated
  derived_valid small ran =
      let (found, ran', same, valid) = number_object_tree_valid ranks [] obj small in
      let e : found ≡ obj' = cc (ran', ran) in by_choice e valid
    where
      by_choice :
          {found : Object}
          → found ≡ obj'
          → NumberedBy ranks [] obj found
          → IsNumbering obj.symbol_instances
              (derived_parents obj.symbol_instances (ranks_in ranks obj))
              obj'.symbol_instances
      by_choice e (inl v) = rw e at v.1
      by_choice e (inr v) = rw e at v.1

  -- Where the producer states no parent and the ranges are laminar, the numbers say exactly what
  -- the ranges and the kinds say: `y` lies strictly inside the interval of `x` if and only if
  -- `contains` holds of `x` and `y`.
  pub Contained-iff_contains :
      Fits32 obj
      → IsLaminar obj.symbol_instances (ranks_in ranks obj)
      → number_object_tree ranks [] obj ≡ some obj'
      → (x y : ℕ) → x < length obj.symbol_instances
      → y < length obj.symbol_instances
      → Contained obj'.symbol_instances x y ↔ (
          contains
            (at obj.symbol_instances x)
            (at obj.symbol_instances y)
            (ranks_in ranks obj x)
            (ranks_in ranks obj y)
          ≡ true)
  unfolding within
  Contained-iff_contains small lam ran x y l k =
      let valid = derived_valid small ran in
      let a = Ancestor-iff_within obj.symbol_instances (ranks_in ranks obj) lam x y l k in
      let c = valid.contained_iff x y l k in (λ h. a.0 (c.0 h), λ h. c.1 (a.1 h))
