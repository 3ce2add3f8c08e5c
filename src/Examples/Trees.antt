-- ===== src/Examples/Trees.antt =====
-- pkg/index/numbering.go on one file: a module, the file, two functions, one of them with a literal
-- inside, and three references.
use askl_golang_indexer.Prelude.{
  ℕ, zero, suc, ◌<◌, ◌≡◌, refl, inl, inr, ◌↔◌, true, Option, none, some, List, [], ◌∷◌, arith, Map,
}
use askl_golang_indexer.Prelude.Int.{pos}
use askl_golang_indexer.Proto.{
  SymbolInstance, SymbolRef, Object, new_instance, new_ref, source, definition,
}
use askl_golang_indexer.Parentage.{at, within, order_of, rank_of, contains}
use askl_golang_indexer.ObjectTree.{number_object_tree, derived_parents, stated_parents}
use askl_golang_indexer.ObjectTree.Numbered.{AllRooted}
use askl_golang_indexer.ObjectTree.Numbering.{Contained}
use askl_golang_indexer.ObjectTree.Parents.{IsInnermost, derived_parents-IsInnermost}
use askl_golang_indexer.ObjectTree.Acyclic.{derived_parents-AllRooted}
use askl_golang_indexer.ObjectTree.Correct.{
  ranks_in, NumberedBy, IsLaminar, number_object_tree_valid, Contained-iff_contains,
}
use askl_golang_indexer.ObjectTree.Refs.{refs_owned, AllOwned, IsTop}

abbrev insts : List SymbolInstance
insts =
    new_instance 1 source (pos 0) (pos 100)
    ∷ new_instance 2 definition (pos 10) (pos 40)
    ∷ new_instance 3 definition (pos 20) (pos 30)
    ∷ []

abbrev ranks : Map ℕ ℕ
ranks = (1, 2) ∷ (2, 3) ∷ (3, 3) ∷ []

abbrev main_go : Object
main_go = record {
  local_id = 1;
  module_path = [];
  filesystem_path = [];
  filetype = [];
  content = [];
  symbol_instances = insts;
  refs = new_ref 2 (pos 25) (pos 28) none ∷ new_ref 3 (pos 200) (pos 204) none ∷ [];
}

numbers : List SymbolInstance → List (ℕ × ℕ × ℕ)
numbers [] = []
numbers (i ∷ insts) = (i.dfs_enter, i.dfs_exit, i.nesting_level) ∷ numbers insts

points : List SymbolRef → List (ℕ × ℕ)
points [] = []
points (r ∷ refs) = (r.dfs_enter, r.nesting_level) ∷ points refs

abbrev result_of : Option Object → List (ℕ × ℕ × ℕ) × List (ℕ × ℕ)
result_of none = ([], [])
result_of (some o) = (numbers o.symbol_instances, points o.refs)

-- The literal lies in its function; the reference past the end goes to the file.
main_go_numbers :
    result_of (number_object_tree ranks [] main_go)
    ≡ ((1024, 6144, 0) ∷ (2048, 5120, 1) ∷ (3072, 4096, 2) ∷ [], (3073, 3) ∷ (1025, 1) ∷ [])
unfolding number_object_tree numbers points order_of stated_parents derived_parents
main_go_numbers = refl

-- Two instances that are stated to own each other make the numbering fall back to the ranges.
main_go_circle :
    result_of (number_object_tree ranks ((1, 2) ∷ (2, 1) ∷ []) main_go)
    ≡ result_of (number_object_tree ranks [] main_go)
unfolding number_object_tree numbers points order_of stated_parents derived_parents
main_go_circle = refl

-- A stated parent that stands earlier closes a circle with a derived one, and the ranges decide.
abbrev backwards : Object
backwards = record main_go {
  symbol_instances =
      new_instance 2 definition (pos 5) (pos 6) ∷ new_instance 3 definition (pos 0) (pos 10) ∷ [];
}

backwards_circle :
    result_of (number_object_tree ranks ((1, 0) ∷ []) backwards)
    ≡ result_of (number_object_tree ranks [] backwards)
unfolding number_object_tree numbers points order_of stated_parents derived_parents
backwards_circle = refl

number_object_tree_valid_example :
    (obj' : Object) × (number_object_tree ranks ((1, 2) ∷ []) main_go ≡ some obj')
    × (obj' ≡ record main_go { symbol_instances = obj'.symbol_instances; refs = obj'.refs })
    × NumberedBy ranks ((1, 2) ∷ []) main_go obj'
number_object_tree_valid_example =
    number_object_tree_valid ranks ((1, 2) ∷ []) main_go (omega arith)

derived_parents-IsInnermost_example :
    IsInnermost insts (ranks_in ranks main_go) 2 (derived_parents insts (ranks_in ranks main_go) 2)
derived_parents-IsInnermost_example =
    derived_parents-IsInnermost insts (ranks_in ranks main_go) 2 (omega arith)

abbrev numbered : Object
numbered = record main_go {
  symbol_instances =
      (record (new_instance 1 source (pos 0) (pos 100)) { dfs_enter = 1024; dfs_exit = 6144 })
      ∷ (record (new_instance 2 definition (pos 10) (pos 40)) {
        dfs_enter = 2048;
        dfs_exit = 5120;
        nesting_level = 1;
      })
      ∷ (record (new_instance 3 definition (pos 20) (pos 30)) {
        dfs_enter = 3072;
        dfs_exit = 4096;
        nesting_level = 2;
      })
      ∷ [];
  refs =
      (record (new_ref 2 (pos 25) (pos 28) none) { dfs_enter = 3073; nesting_level = 3 })
      ∷ (record (new_ref 3 (pos 200) (pos 204) none) { dfs_enter = 1025; nesting_level = 1 })
      ∷ [];
}

main_go_run : number_object_tree ranks [] main_go ≡ some numbered
unfolding number_object_tree order_of stated_parents derived_parents
main_go_run = refl

laminar : IsLaminar insts (ranks_in ranks main_go)
unfolding within contains rank_of
laminar zero zero x lc ld lx w v n = absurd (ground arith)
laminar zero (suc zero) x lc ld lx w v n = inl refl
laminar zero (suc (suc zero)) x lc ld lx w v n = inl refl
laminar zero (suc (suc (suc d))) x lc ld lx w v n = absurd (omega (arith, ld))
laminar (suc zero) zero x lc ld lx w v n = inr refl
laminar (suc zero) (suc zero) x lc ld lx w v n = absurd (ground arith)
laminar (suc zero) (suc (suc zero)) x lc ld lx w v n = inl refl
laminar (suc zero) (suc (suc (suc d))) x lc ld lx w v n = absurd (omega (arith, ld))
laminar (suc (suc zero)) zero x lc ld lx w v n = inr refl
laminar (suc (suc zero)) (suc zero) x lc ld lx w v n = inr refl
laminar (suc (suc zero)) (suc (suc zero)) x lc ld lx w v n = absurd (ground arith)
laminar (suc (suc zero)) (suc (suc (suc d))) x lc ld lx w v n = absurd (omega (arith, ld))
laminar (suc (suc (suc c))) d x lc ld lx w v n = absurd (omega (arith, lc))

Contained-iff_contains_example : Contained numbered.symbol_instances 1 2 ↔ (
    contains (at insts 1) (at insts 2) (ranks_in ranks main_go 1) (ranks_in ranks main_go 2) ≡ true)
Contained-iff_contains_example =
    Contained-iff_contains ranks main_go numbered (omega arith) laminar main_go_run 1 2
      (omega arith) (omega arith)

derived_parents-AllRooted_example : AllRooted 3 (derived_parents insts (ranks_in ranks main_go))
derived_parents-AllRooted_example = derived_parents-AllRooted insts (ranks_in ranks main_go)

refs_owned_example :
    (r : ℕ) × (r < 3)
    × IsTop numbered.symbol_instances r
    × AllOwned ranks main_go numbered.symbol_instances numbered.refs r
refs_owned_example = refs_owned ranks [] main_go numbered (omega arith) (omega arith) main_go_run
