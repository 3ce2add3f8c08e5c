-- ===== src/ObjectTree/Total.antt =====
-- pkg/index/numbering.go, `numberObjectTree`: with its fallback the numbering always ends, reaches
-- every instance, and keeps the promise of `Numbering` for one of the two parent arrays.
use askl_golang_indexer.Prelude.{
  ℕ, zero, suc, ◌^◌, ◌<◌, ◌≡◌, refl, ◌∙◌, ap, sym, ◌⊎◌, inl, inr, false, Option, some, List, [],
  ◌∷◌, map, arith, ltb, ◌==◌, ==_iff, length, mem, Bool-cases, Map,
}
use askl_golang_indexer.Proto.{SymbolInstance}
use askl_golang_indexer.Parentage.{at, order_of, apply_stated}
use askl_golang_indexer.Parentage.Order.{Distinct-order_of, mem-order_of}
use askl_golang_indexer.Parentage.Kids.{roots_of}
use askl_golang_indexer.Forest.{Counted, reset}
use askl_golang_indexer.Forest.Marks.{reset-visit}
use askl_golang_indexer.ObjectTree.{
  derived_parents, stated_parents, number_by, renumber, number_instances, is_empty,
}
use askl_golang_indexer.ObjectTree.Acyclic.{
  derived_parents_bounded, stated_parents_bounded, derived_parents-AllRooted,
}
use askl_golang_indexer.ObjectTree.Numbered.{
  AllRooted, finish, number_by-eq-visit, numbered-finish, size-of_Rooted, Rooted-of_size,
  length-finish,
}
use askl_golang_indexer.ObjectTree.Numbering.{IsNumbering, finish-IsNumbering, IsNumbering-rebase}

module _ (insts : List SymbolInstance) (rank : ℕ → ℕ) (small : length insts < 2 ^ 31) where
  abbrev n : ℕ
  n = length insts

  abbrev order : List ℕ
  order = order_of insts rank

  -- The result of a run: everything is numbered, by the given parents.
  pub record Done (parent : ℕ → Option ℕ) (out : Counted × List ℕ) : Type 0 where
    pub complete : out.0.numbered ≡ length insts
    pub roots : out.1 ≡ roots_of parent order
    pub valid : IsNumbering insts parent out.0.insts

  reset_all : (i : List SymbolInstance) (x : ℕ) → at (map reset i) x ≡ reset (at i x)
  reset_all [] x = refl
  reset_all (a ∷ i) zero = refl
  reset_all (a ∷ i) (suc x) = reset_all i x

  length-reset : (i : List SymbolInstance) → length (map reset i) ≡ length i
  length-reset [] = refl
  length-reset (a ∷ i) = ap suc (length-reset i)

  -- A run over a rooted array, from instances that differ from `insts` in their numbers alone.
  run :
      (insts' : List SymbolInstance) (parent : ℕ → Option ℕ)
      → length insts' ≡ n
      → ((x : ℕ) → reset (at insts' x) ≡ reset (at insts x))
      → ((x p : ℕ) → parent x ≡ some p → (x < n) × (p < n))
      → AllRooted n parent
      → (out : Counted × List ℕ) × (number_by insts' order parent ≡ some out) × Done parent out
  run insts' parent l same b rooted =
      let d = Distinct-order_of insts rank in
      let m : (y : ℕ) → mem y order ≡ ltb y (length insts') =
        λ y. rw l (mem-order_of insts rank y) in
      let b' : (x p : ℕ) → parent x ≡ some p → (x < length insts') × (p < length insts') =
        λ x p e. rw l (b x p e) in
      let r : AllRooted (length insts') parent = λ y k. rooted y (rw l at k) in
      (
        (finish insts' order parent d m b', roots_of parent order),
        number_by-eq-visit insts' order parent d m b',
        record {
          complete =
              numbered-finish insts' order parent d m b'
              ∙ size-of_Rooted insts' order parent d m b' r
              ∙ l;
          roots = refl;
          valid =
              IsNumbering-rebase insts insts' parent (finish insts' order parent d m b').insts l
                same (finish-IsNumbering insts' order parent d m b' r (rw l small));
        },
      )

  module _ (stated : Map ℕ ℕ) where
    abbrev wanted : ℕ → Option ℕ
    wanted = stated_parents insts rank stated

    bounded : (x p : ℕ) → wanted x ≡ some p → (x < n) × (p < n)
    bounded = stated_parents_bounded insts rank stated

    -- The run by the stated parents, as it ends.
    abbrev first : Counted
    first =
        finish insts order wanted (Distinct-order_of insts rank) (mem-order_of insts rank) bounded

    first_run : number_by insts order wanted ≡ some (first, roots_of wanted order)
    first_run =
        number_by-eq-visit insts order wanted (Distinct-order_of insts rank)
          (mem-order_of insts rank) bounded

    first_numbered : first.numbered ≡ n → AllRooted n wanted
    first_numbered e =
        Rooted-of_size insts order wanted (Distinct-order_of insts rank) (mem-order_of insts rank)
          bounded
          (sym (
              numbered-finish insts order wanted (Distinct-order_of insts rank)
                (mem-order_of insts rank) bounded)
            ∙ e)

    first_all : AllRooted n wanted → first.numbered ≡ n
    first_all r =
        numbered-finish insts order wanted (Distinct-order_of insts rank) (mem-order_of insts rank)
          bounded
        ∙ size-of_Rooted insts order wanted (Distinct-order_of insts rank) (mem-order_of insts rank)
            bounded r

    not_empty : ¬ AllRooted n wanted → is_empty stated ≡ false
    not_empty = by_cases stated
      where
        by_cases :
            (stated : Map ℕ ℕ)
            → ¬ AllRooted n (stated_parents insts rank stated)
            → is_empty stated ≡ false
        by_cases [] h =
            absurd (h (unfold stated_parents apply_stated in derived_parents-AllRooted insts rank))
        by_cases (e ∷ stated) h = refl

    renumber_kept :
        (out : Counted × List ℕ)
        → out.0.numbered ≡ n
        → renumber insts rank order stated out ≡ some out
    unfolding renumber
    renumber_kept out e = ground arith

    renumber_again :
        (out : Counted × List ℕ)
        → (out.0.numbered == n) ≡ false
        → is_empty stated ≡ false
        → renumber insts rank order stated out
          ≡ number_by (map reset out.0.insts) order (derived_parents insts rank)
    unfolding renumber
    renumber_again out e k = rw (e, k)

    abbrev pub Chosen : Counted × List ℕ → Type 0
    Chosen out =
        AllRooted (length insts) (stated_parents insts rank stated)
          × Done (stated_parents insts rank stated) out
        ⊎ (¬ AllRooted (length insts) (stated_parents insts rank stated))
          × Done (derived_parents insts rank) out

    pub number_instances_lem :
        (out : Counted × List ℕ) × (number_instances insts rank stated ≡ some out) × Chosen out
    unfolding number_instances
    number_instances_lem = elim (Bool-cases (first.numbered == n)) [
      | inl e ↦
          let rooted = first_numbered ((==_iff first.numbered n).0 e) in
          let (out, ran, done) = run insts wanted refl (λ x. refl) bounded rooted in
          (out, rw (ran, number_instances) (renumber_kept out done.complete), inl (rooted, done))
      | inr e ↦
          let stuck : ¬ AllRooted n wanted = λ r. ground (arith, first_all r) in
          let i = first.insts in
          let (out, ran, done) =
            run (map reset i) (derived_parents insts rank)
              (length-reset i
                ∙ length-finish insts order wanted (Distinct-order_of insts rank)
                    (mem-order_of insts rank) bounded)
              (λ x. ap reset (reset_all i x) ∙ reset-visit _ 0 0 _ x)
              (derived_parents_bounded insts rank) (derived_parents-AllRooted insts rank) in
          (
            out,
            rw (first_run, number_instances)
                (renumber_again (first, roots_of wanted order) e (not_empty stuck) ∙ ran),
            inr (stuck, done),
          )
    ]
