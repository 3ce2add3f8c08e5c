-- ===== src/Parentage/Kids.antt =====
-- pkg/index/numbering.go, `childLists`: an instance is listed once, under its parent or as a root.
use mathlib.Core.List.{append-nil, append_assoc}
use askl_golang_indexer.Prelude.{
  ℕ, ◌<◌, ◌≡◌, refl, ◌∙◌, sym, ap, Bool, true, false, ◌&&◌, ◌⊎◌, ◌↔◌, ==_iff, Map, Option, none,
  some, List, [], ◌∷◌, ◌++◌, arith, ◌==◌, if◌then◌else◌, mem, Distinct, Option-cases, Bool-cases,
  inl, inr,
}
use askl_golang_indexer.Parentage.{update, child_loop, child_lists, apply_stated}

module _ (parent : ℕ → Option ℕ) where
  under : Option ℕ → ℕ → Bool
  under p a = elim (parent a) [
    | none ↦ elim p [ none ↦ true | some _ ↦ false ]
    | some q ↦ elim p [ none ↦ false | some r ↦ q == r ]
  ]

  -- The instances of the order whose parent is `p`.
  children : Option ℕ → List ℕ → List ℕ
  children p [] = []
  children p (a ∷ order) = if under p a then a ∷ children p order else children p order

  mem-children :
      (p : Option ℕ) (y : ℕ) (order : List ℕ)
      → mem y (children p order) ≡ (mem y order && under p y)
  unfolding children
  mem-children p y [] = refl
  mem-children p y (a ∷ order) = ground (arith, mem-children p y order)

  Distinct-children : (p : Option ℕ) (order : List ℕ) → Distinct order → Distinct (children p order)
  unfolding children
  Distinct-children p [] d = tt
  Distinct-children p (a ∷ order) d =
      ground (arith, Distinct-children p order, mem-children p a order)

  children_root :
      (a : ℕ) (order : List ℕ)
      → parent a ≡ none
      → (children none (a ∷ order) ≡ a ∷ children none order)
        × ((p : ℕ) → children (some p) (a ∷ order) ≡ children (some p) order)
  unfolding children under
  children_root a order e = (rw (e, children, under), λ p. rw (e, children, under))

  children_kid :
      (a q : ℕ) (order : List ℕ)
      → parent a ≡ some q
      → (children none (a ∷ order) ≡ children none order)
        × ((p : ℕ)
            → children (some p) (a ∷ order)
              ≡ (if q == p then a ∷ children (some p) order else children (some p) order))
  unfolding children under
  children_kid a q order e = (rw (e, children, under), λ p. rw (e, children, under))

  child_loop_lem :
      (order : List ℕ) (kids : ℕ → List ℕ) (roots : List ℕ)
      → ((p : ℕ) → (child_loop parent order kids roots).0 p ≡ kids p ++ children (some p) order)
        × ((child_loop parent order kids roots).1 ≡ roots ++ children none order)
  unfolding child_loop
  child_loop_lem [] kids roots =
      unfold children in (λ p. sym (append-nil (kids p)), sym (append-nil roots))
  child_loop_lem (a ∷ order) kids roots = elim (Option-cases (parent a)) [
    | inl e ↦
        let (k, r) = child_loop_lem order kids (roots ++ a ∷ []) in
        let (here, there) = children_root a order e in
        rw (e, child_loop)
          (
            λ p. k p ∙ ap (λ xs. kids p ++ xs) (sym (there p)),
            r
                ∙ append_assoc roots (a ∷ []) (children none order)
                ∙ ap (λ xs. roots ++ xs) (sym here),
          )
    | inr (q, e) ↦
        let (k, r) = child_loop_lem order (update kids q (kids q ++ a ∷ [])) roots in
        let (here, there) = children_kid a q order e in
        rw (e, child_loop)
          (
            λ p. k p ∙ listed q p (Bool-cases (q == p)) ∙ ap (λ xs. kids p ++ xs) (sym (there p)),
            r ∙ ap (λ xs. roots ++ xs) (sym here),
          )
  ]
    where
      listed :
          (q p : ℕ)
          → ((q == p) ≡ true) ⊎ ((q == p) ≡ false)
          → update kids q (kids q ++ a ∷ []) p ++ children (some p) order
            ≡ kids p ++ (if q == p then a ∷ children (some p) order else children (some p) order)
      listed q p (inl e) = rw e (
          append_assoc (kids q) (a ∷ []) (children (some p) order)
          ∙ ap (λ z. kids z ++ a ∷ children (some p) order) ((==_iff q p).0 e))
      listed q p (inr e) = rw e

  module _ (order : List ℕ) where
    abbrev pub kids_of : ℕ → List ℕ
    kids_of = (child_lists parent order).0

    abbrev pub roots_of : List ℕ
    roots_of = (child_lists parent order).1

    kids_of-eq-children : (p : ℕ) → kids_of p ≡ children (some p) order
    unfolding child_lists
    kids_of-eq-children p = (child_loop_lem order (λ _. []) []).0 p

    roots_of-eq-children : roots_of ≡ children none order
    unfolding child_lists
    roots_of-eq-children = (child_loop_lem order (λ _. []) []).1

    pub mem-kids_of :
        (p y : ℕ) → (mem y (kids_of p) ≡ true) ↔ ((mem y order ≡ true) × (parent y ≡ some p))
    unfolding under
    mem-kids_of p y =
        rw (kids_of-eq-children p, mem-children (some p) y order)
          (λ h. ground arith, λ h. ground arith)

    pub mem-roots_of :
        (y : ℕ) → (mem y roots_of ≡ true) ↔ ((mem y order ≡ true) × (parent y ≡ none))
    unfolding under
    mem-roots_of y =
        rw (roots_of-eq-children, mem-children none y order) (λ h. ground arith, λ h. ground arith)

    pub Distinct-kids_of : Distinct order → (p : ℕ) → Distinct (kids_of p)
    Distinct-kids_of d p = rw (kids_of-eq-children p) (Distinct-children (some p) order d)

    pub Distinct-roots_of : Distinct order → Distinct roots_of
    Distinct-roots_of d = rw roots_of-eq-children (Distinct-children none order d)

-- A stated parent is in range and is not the child itself; all else is as derived.
pub apply_stated_bounded :
    (n : ℕ) (stated : Map ℕ ℕ) (parent : ℕ → Option ℕ)
    → ((x p : ℕ) → parent x ≡ some p → (x < n) × (p < n))
    → (x p : ℕ) → apply_stated n stated parent x ≡ some p
    → (x < n) × (p < n)
unfolding apply_stated
apply_stated_bounded n [] parent b x p h = b x p h
apply_stated_bounded n ((child, q) ∷ stated) parent b x p h =
    apply_stated_bounded n stated _ (λ z r k. ground (arith, b z r)) x p h
