-- ===== src/ObjectTree/Parents.antt =====
-- pkg/index/numbering.go, the `derived` array: the stack sweep against the definition of a parent.
use mathlib.Core.List.{reverse}
use askl_golang_indexer.Prelude.{
  ℕ, Bool, ◌<◌, ◌≡◌, refl, Option, none, List, [], ◌∷◌, arith, ltb, length, mem, find, All, subst,
  fun_ext,
}
use askl_golang_indexer.Proto.{SymbolInstance}
use askl_golang_indexer.Parentage.{order_of, within, outermost_first}
use askl_golang_indexer.Parentage.Order.{
  Sorted-order_of, Distinct-order_of, mem-order_of, outermost_first_irrefl,
  outermost_first-of-within, within_takeover,
}
use askl_golang_indexer.Parentage.Sweep.{
  Tracks-nil, sweep-eq-find, Latest, Latest-nil, Latest-find, mem-reverse_aux,
}
use askl_golang_indexer.ObjectTree.{derived_parents}

All-nil : (xs : List ℕ) → All (λ (_ : ℕ). Unit {0}) xs
All-nil [] = tt
All-nil (x ∷ xs) = (tt, All-nil xs)

module _ (insts : List SymbolInstance) (rank : ℕ → ℕ) where
  pub derived_parents-eq-find :
      (x : ℕ)
      → x < length insts
      → derived_parents insts rank x
        ≡ find (λ p. within insts rank p x) (reverse (order_of insts rank))
  unfolding derived_parents
  derived_parents-eq-find x h =
      sweep-eq-find (outermost_first insts rank) (within insts rank)
        (outermost_first-of-within insts rank) (within_takeover insts rank)
        (outermost_first_irrefl insts rank) (order_of insts rank) [] [] (λ _. none) x
        (Tracks-nil (outermost_first insts rank) (within insts rank)) (Sorted-order_of insts rank)
        (Distinct-order_of insts rank) (All-nil (order_of insts rank)) refl
        (ground (arith, mem-order_of insts rank x))

  -- What the code calls the innermost container of `x`.
  abbrev pub IsInnermost : ℕ → Option ℕ → Type 0
  IsInnermost x =
      Latest (outermost_first insts rank) (λ p. within insts rank p x) (λ c. ltb c (length insts))

  -- The parent that the one-pass stack sweep derives for an instance is a container of it that no
  -- other container follows in the outermost-first order, and there is none only where nothing
  -- contains the instance. The ranges may overlap in any way.
  pub derived_parents-IsInnermost :
      (x : ℕ) → x < length insts → IsInnermost x (derived_parents insts rank x)
  derived_parents-IsInnermost x h =
      let order = order_of insts rank in
      let less = outermost_first insts rank in
      let t = λ (p : ℕ). within insts rank p x in
      let among : ◌≡◌ {A = ℕ → Bool} (λ c. mem c (reverse order)) (λ c. ltb c (length insts)) =
        fun_ext λ c. ground (arith, mem-reverse_aux c order [], mem-order_of insts rank c) in
      rw (derived_parents-eq-find x h) (
        subst (λ a. Latest less t a (find t (reverse order))) among
          (Latest-find less (outermost_first_irrefl insts rank) t order []
            (Sorted-order_of insts rank) (All-nil order) (Latest-nil less t)))
