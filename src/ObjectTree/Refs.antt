-- ===== src/ObjectTree/Refs.antt =====
-- pkg/index/numbering.go, `numberRefs` as `numberObjectTree` calls it: the owner of each reference,
-- and where its number lies.
use mathlib.Core.List.{reverse}
use askl_golang_indexer.Prelude.{
  ℕ, zero, suc, ◌+◌, ◌^◌, ◌≤◌, ◌<◌, ◌≡◌, refl, ◌∙◌, ap, sym, subst, fun_ext, inl, inr, Bool, false,
  Option, none, some, List, [], ◌∷◌, arith, ltb, length, find, Map, Bool-cases, mem, All-of_mem,
}
use askl_golang_indexer.Proto.{SymbolInstance, SymbolRef, Object, no_instance}
use askl_golang_indexer.Parentage.{at, order_of, outermost_first}
use askl_golang_indexer.Parentage.Order.{
  Sorted, Sorted-order_of, mem-order_of, outermost_first_irrefl,
}
use askl_golang_indexer.Parentage.Sweep.{Latest, Latest-find, Latest-nil, mem-reverse_aux}
use askl_golang_indexer.Parentage.Kids.{roots_of, mem-roots_of}
use askl_golang_indexer.Forest.{reset, fold_step}
use askl_golang_indexer.Forest.Chain.{Chain}
use askl_golang_indexer.Forest.Cover.{Ancestor, direct, further}
use askl_golang_indexer.RefPoints.{
  number_refs, ref_at, covers, place_at, place_ref, owner_or_fallback,
}
use askl_golang_indexer.RefPoints.Owner.{number_refs-owned}
use askl_golang_indexer.ObjectTree.{stated_parents, derived_parents, number_object_tree}
use askl_golang_indexer.ObjectTree.Acyclic.{
  derived_parents-AllRooted, derived_parents_bounded, stated_parents_bounded,
}
use askl_golang_indexer.ObjectTree.Numbered.{AllRooted}
use askl_golang_indexer.ObjectTree.Numbering.{Contained, IsNumbering}
use askl_golang_indexer.ObjectTree.Total.{number_instances_lem}
use askl_golang_indexer.ObjectTree.Correct.{ranks_in, Fits32, object_of, tree_of_run}

at_out :
    (insts : List SymbolInstance) (x : ℕ) → ltb x (length insts) ≡ false → at insts x ≡ no_instance
at_out [] x h = refl
at_out (i ∷ insts) zero h = absurd (ground arith)
at_out (i ∷ insts) (suc x) h = at_out insts x (ground arith)

-- Numbering keeps the ranges, so it keeps what is derived from them.
module _ (insts result : List SymbolInstance) (parent : ℕ → Option ℕ)
    (v : IsNumbering insts parent result) where
  same_instance : (x : ℕ) → reset (at result x) ≡ reset (at insts x)
  same_instance x = elim (Bool-cases (ltb x (length insts))) [
    | inl l ↦ ap reset (v.kept x (ground arith))
    | inr l ↦ ap reset (at_out result x (rw (v.same_length) l) ∙ sym (at_out insts x l))
  ]

  same_start : (x : ℕ) → (at result x).start_offset ≡ (at insts x).start_offset
  same_start x = ap (λ i. i.start_offset) (same_instance x)

  same_end : (x : ℕ) → (at result x).end_offset ≡ (at insts x).end_offset
  same_end x = ap (λ i. i.end_offset) (same_instance x)

  pub same_order : (rank : ℕ → ℕ) → outermost_first result rank ≡ outermost_first insts rank
  unfolding outermost_first
  same_order rank =
      fun_ext λ a. fun_ext λ b. rw (same_start a, same_start b, same_end a, same_end b)

  pub same_covers : (ref : SymbolRef) (p : ℕ) → covers (at result p) ref ≡ covers (at insts p) ref
  unfolding covers
  same_covers ref p = rw (same_start p, same_end p)

-- The innermost instance whose range contains the ref's, or none.
abbrev pub IsOwner : List SymbolInstance → (ℕ → ℕ) → SymbolRef → Option ℕ → Type 0
IsOwner insts rank ref =
    Latest (outermost_first insts rank) (λ p. covers (at insts p) ref) (λ c. ltb c (length insts))

-- A point strictly inside the interval of an instance, one level below it.
abbrev pub PointIn : SymbolInstance → SymbolRef → Type 0
PointIn o ref =
    (ref.dfs_enter ≡ o.dfs_enter + 1)
    × (ref.dfs_enter < o.dfs_exit)
    × (ref.nesting_level ≡ suc o.nesting_level)
    × (ref.fold_depth ≡ o.fold_depth + fold_step o)

abbrev pub owner_index : ℕ → Option ℕ → ℕ
owner_index r none = r
owner_index r (some p) = p

find-IsOwner :
    (insts : List SymbolInstance) (rank : ℕ → ℕ) (ref : SymbolRef)
    → IsOwner insts rank ref (find (λ p. covers (at insts p) ref) (reverse (order_of insts rank)))
find-IsOwner insts rank ref =
    let order = order_of insts rank in
    let less = outermost_first insts rank in
    let t = λ (p : ℕ). covers (at insts p) ref in
    let among : ◌≡◌ {A = ℕ → Bool} (λ c. mem c (reverse order)) (λ c. ltb c (length insts)) =
      fun_ext λ c. ground (arith, mem-reverse_aux c order [], mem-order_of insts rank c) in
    subst (λ a. Latest less t a (find t (reverse order))) among
      (Latest-find less (outermost_first_irrefl insts rank) t order [] (Sorted-order_of insts rank)
        (All-of_mem _ order (λ y m. tt)) (Latest-nil less t))

owner_lt :
    (insts : List SymbolInstance) (rank : ℕ → ℕ) (ref : SymbolRef) (r : ℕ) (o : Option ℕ)
    → r < length insts
    → IsOwner insts rank ref o
    → owner_index r o < length insts
owner_lt insts rank ref r none l w = l
owner_lt insts rank ref r (some p) l w = ground (arith, w.0)

place_in :
    (insts : List SymbolInstance) (parent : ℕ → Option ℕ) (result : List SymbolInstance) (x : ℕ)
    (ref : SymbolRef)
    → length insts < 2 ^ 31
    → IsNumbering insts parent result
    → x < length insts
    → PointIn (at result x) (place_at (at result x) ref)
place_in insts parent result x ref small v l =
    let step : fold_step (at result x) ≤ 1 = ground arith in
    omega (arith, v.wide x l, v.within_bounds x l)

the_owner :
    (result : List SymbolInstance) (r : ℕ) (o : Option ℕ)
    → owner_or_fallback result (at result r) o ≡ at result (owner_index r o)
the_owner result r none = refl
the_owner result r (some p) = refl

-- The end of a chain is a root.
Chain-root :
    (parent : ℕ → Option ℕ) (n y : ℕ) (ps : List ℕ)
    → ((x p : ℕ) → parent x ≡ some p → (x < n) × (p < n))
    → y < n
    → Chain parent y ps
    → (r : ℕ) × (parent r ≡ none) × (r < n)
Chain-root parent n y [] b l c = (y, c, l)
Chain-root parent n y (p ∷ ps) b l c = Chain-root parent n p ps b (b y p c.0).1 c.1

-- Nothing is above an instance with no parent.
not_below : (parent : ℕ → Option ℕ) (x r : ℕ) → parent r ≡ none → Ancestor parent x r → ⊥
not_below parent x r top (direct p) = absurd (has_none (sym top ∙ p))
  where
    has_none : {y : ℕ} → ◌≡◌ {A = Option ℕ} none (some y) → ⊥
    has_none e = ground arith
not_below parent x r top (further p a) = absurd (has_none (sym top ∙ p))
  where
    has_none : {y : ℕ} → ◌≡◌ {A = Option ℕ} none (some y) → ⊥
    has_none e = ground arith

-- A root of the tree that the numbers state: no instance contains it.
abbrev pub IsTop : List SymbolInstance → ℕ → Type 0
IsTop result r = (x : ℕ) → x < length result → ¬ Contained result x r

-- Every ref of the object, as the numbering leaves it: a point in the instance that owns it, or in
-- `r` where no instance does.
abbrev pub AllOwned : Map ℕ ℕ → Object → List SymbolInstance → List SymbolRef → ℕ → Type 0
AllOwned ranks obj result refs r =
    (length refs ≡ length obj.refs)
    × ((k : ℕ)
        → k < length obj.refs
        → (o : Option ℕ) × IsOwner obj.symbol_instances (ranks_in ranks obj) (ref_at obj.refs k) o
          × PointIn (at result (owner_index r o)) (ref_at refs k))

-- The numbering by `parent` ran, and the refs were placed last.
module _ (ranks : Map ℕ ℕ) (obj : Object) (small : Fits32 obj) (parent : ℕ → Option ℕ)
    (bounded : (x p : ℕ)
      → parent x ≡ some p
      → (x < length obj.symbol_instances) × (p < length obj.symbol_instances))
    (some_instance : 0 < length obj.symbol_instances)
    (rooted : AllRooted (length obj.symbol_instances) parent) where
  abbrev insts : List SymbolInstance
  insts = obj.symbol_instances

  abbrev rank : ℕ → ℕ
  rank = ranks_in ranks obj

  owned_by_first :
      (result : List SymbolInstance) (r : ℕ) (roots : List ℕ)
      → IsNumbering insts parent result
      → r < length insts
      → AllOwned ranks obj result
          (number_refs obj.refs result (order_of insts rank) rank (r ∷ roots))
          r
  unfolding place_ref
  owned_by_first result r roots v l =
      let s = same_order insts result parent v rank in
      let (len, each) =
        number_refs-owned result rank obj.refs (order_of insts rank) r roots
          (outermost_first_irrefl result rank)
          (subst (λ f. Sorted f (order_of insts rank)) (sym s) (Sorted-order_of insts rank)) in
      (
        len,
        λ k b.
            let ref = ref_at obj.refs k in
            let o = find (λ p. covers (at insts p) ref) (reverse (order_of insts rank)) in
            let w = find-IsOwner insts rank ref in
            let same : find (λ p. covers (at result p) ref) (reverse (order_of insts rank)) ≡ o =
              ap (λ t. find t (reverse (order_of insts rank)))
                (fun_ext (same_covers insts result parent v ref)) in
            let e : ref_at (number_refs obj.refs result (order_of insts rank) rank (r ∷ roots)) k
                ≡ place_at (at result (owner_index r o)) ref =
              each k b
              ∙ ap (λ q. place_at (owner_or_fallback result (at result r) q) ref) same
              ∙ ap (λ i. place_at i ref) (the_owner result r o) in
            (
              o,
              w,
              subst (λ q. PointIn (at result (owner_index r o)) q) (sym e)
                  (place_in insts parent result (owner_index r o) ref small v
                    (owner_lt insts rank ref r o l w)),
            ),
      )

  -- There is a root, so the sweep has a fallback.
  pub owned_by_run :
      (result : List SymbolInstance) (roots : List ℕ)
      → IsNumbering insts parent result
      → roots ≡ roots_of parent (order_of insts rank)
      → (r : ℕ) × (r < length insts)
        × IsTop result r
        × AllOwned ranks obj result (number_refs obj.refs result (order_of insts rank) rank roots) r
  owned_by_run result [] v e =
      let (ps, c) = rooted 0 some_instance in
      let (r, top, l) = Chain-root parent (length insts) 0 ps bounded some_instance c in
      absurd (
        ground (
          arith,
          rw (sym e) at (mem-roots_of parent (order_of insts rank) r),
          mem-order_of insts rank r,
        ))
  owned_by_run result (r ∷ roots) v e =
      let l : r < length insts = ground (
        arith,
        rw (sym e) at (mem-roots_of parent (order_of insts rank) r),
        mem-order_of insts rank r,
      ) in
      let top : parent r ≡ none =
        ground (arith, rw (sym e) at (mem-roots_of parent (order_of insts rank) r)) in
      (
        r,
        l,
        λ x b c.
            not_below parent x r top
              ((v.contained_iff x r (omega (arith, b, v.same_length)) l).0 c),
        owned_by_first result r roots v l,
      )

module _ (ranks stated : Map ℕ ℕ) (obj obj' : Object) where
  -- Where the numbering of an object with instances returns, no reference is added or lost, and each
  -- becomes a point: right after the `dfs_enter` of its owner, inside the owner's interval, one level
  -- below it. The owner is the innermost instance whose range contains the reference's; a reference
  -- that no instance contains goes to one instance, the same for all, that is a root: no instance
  -- contains it in the numbers.
  pub refs_owned :
      Fits32 obj
      → 0 < length obj.symbol_instances
      → number_object_tree ranks stated obj ≡ some obj'
      → (r : ℕ) × (r < length obj.symbol_instances)
        × IsTop obj'.symbol_instances r
        × AllOwned ranks obj obj'.symbol_instances obj'.refs r
  refs_owned small p ran =
      let insts = obj.symbol_instances in
      let rank = ranks_in ranks obj in
      let (out, run, chosen) = number_instances_lem insts rank small stated in
      let all = tree_of_run ranks stated obj out (ground arith) run in
      let e : object_of ranks stated obj out ≡ obj' = cc (all, ran) in
      subst
        (λ o.
          (r : ℕ) × (r < length insts)
          × IsTop o.symbol_instances r
          × AllOwned ranks obj o.symbol_instances o.refs r)
        e
        (elim chosen [
          | inl (rooted, d) ↦
              owned_by_run ranks obj small (stated_parents insts rank stated)
                (stated_parents_bounded insts rank stated) p rooted out.0.insts out.1 d.valid
                d.roots
          | inr (n, d) ↦
              owned_by_run ranks obj small (derived_parents insts rank)
                (derived_parents_bounded insts rank) p (derived_parents-AllRooted insts rank)
                out.0.insts out.1 d.valid d.roots
        ])
