-- ===== src/ObjectTree.antt =====
-- pkg/index/numbering.go, `numberObjectTree` and `numberObjectTrees`. `none` means that a walk ran
-- out of fuel, which `ObjectTree.Total` excludes.
pub mod Parents
pub mod Numbered
pub mod Numbering
pub mod Acyclic
pub mod Total
pub mod Correct
pub mod Refs
use askl_golang_indexer.Prelude.{
  ℕ, suc, Bool, true, false, not, ◌&&◌, Option, none, some, List, [], ◌∷◌, ◌==◌, if◌then◌else◌,
  length, Map, lookup, insert, map, nat_eq, Eq, ◌≡◌, ◌↔◌, arith,
}
use askl_golang_indexer.Proto.{Symbol, SymbolInstance, Object, Project}
use askl_golang_indexer.Parentage.{
  kind_rank, rank_of, order_of, within, sweep, apply_stated, child_lists,
}
use askl_golang_indexer.Forest.{number_forest, Counted, reset}
use askl_golang_indexer.RefPoints.{number_refs}

-- Where an instance sits: the object, and the position in its slice.
pub record InstanceSlot : Type 0 where
  pub object : ℕ
  pub idx : ℕ

abbrev pub slot_beq : InstanceSlot → InstanceSlot → Bool
slot_beq a b = a.object == b.object && a.idx == b.idx

pub slot_beq_iff : (a b : InstanceSlot) → (slot_beq a b ≡ true) ↔ (a ≡ b)
slot_beq_iff a b = ground arith

instance abbrev pub slot_eq : Eq InstanceSlot
slot_eq = record { beq = slot_beq; beq_iff = slot_beq_iff }

-- `derived` and then `parent`, for one object
unfoldable pub derived_parents : List SymbolInstance → (ℕ → ℕ) → ℕ → Option ℕ
unfolding order_of within sweep
derived_parents insts rank = sweep (within insts rank) (order_of insts rank) [] (λ _. none)

unfoldable pub stated_parents : List SymbolInstance → (ℕ → ℕ) → Map ℕ ℕ → ℕ → Option ℕ
unfolding apply_stated
stated_parents insts rank stated = apply_stated (length insts) stated (derived_parents insts rank)

-- The instances after one numbering by a parent array, and the roots.
unfoldable pub number_by : List SymbolInstance → List ℕ → (ℕ → Option ℕ) → Option (Counted × List ℕ)
unfolding child_lists number_forest
number_by insts order parent =
    let (kids, roots) = child_lists parent order in
    elim (number_forest insts kids roots) [ none ↦ none | some s ↦ some (s, roots) ]

abbrev pub is_empty : Map ℕ ℕ → Bool
is_empty [] = true
is_empty (_ ∷ _) = false

-- `if numbered != n && len(stated) > 0 { … }`
unfoldable pub renumber :
    List SymbolInstance → (ℕ → ℕ) → List ℕ → Map ℕ ℕ → Counted × List ℕ → Option (Counted × List ℕ)
unfolding number_by
renumber insts rank order stated (s, roots) =
    if not (s.numbered == length insts) && not (is_empty stated)
    then number_by (map reset s.insts) order (derived_parents insts rank)
    else some (s, roots)

unfoldable pub number_instances :
    List SymbolInstance → (ℕ → ℕ) → Map ℕ ℕ → Option (Counted × List ℕ)
unfolding renumber
number_instances insts rank stated =
    elim (number_by insts (order_of insts rank) (stated_parents insts rank stated)) [
      | none ↦ none
      | some first ↦ renumber insts rank (order_of insts rank) stated first
    ]

unfoldable pub number_object_tree : Map ℕ ℕ → Map ℕ ℕ → Object → Option Object
unfolding number_instances number_refs rank_of
number_object_tree ranks stated obj =
    let rank = rank_of ranks obj.symbol_instances in
    if length obj.symbol_instances == 0
    then some obj
    else elim (number_instances obj.symbol_instances rank stated) [
      | none ↦ none
      | some (s, roots) ↦ some (record obj {
        symbol_instances = s.insts;
        refs = number_refs obj.refs s.insts (order_of obj.symbol_instances rank) rank roots;
      })
    ]

-- `rankBySymbol[sym.LocalId] = kindRank(sym.Type)`
unfoldable pub rank_by_symbol : List Symbol → Map ℕ ℕ → Map ℕ ℕ
rank_by_symbol [] ranks = ranks
rank_by_symbol (sym ∷ symbols) ranks =
    rank_by_symbol symbols (insert sym.local_id (kind_rank sym.type) ranks)

-- `for k := range obj.SymbolInstances { if p, ok := i.statedParent[…]; ok { stated[k] = p } }`
unfoldable pub stated_of : Map InstanceSlot ℕ → ℕ → ℕ → List SymbolInstance → Map ℕ ℕ
stated_of stated_parent obj k [] = []
stated_of stated_parent obj k (_ ∷ insts) =
    elim (lookup (record { object = obj; idx = k }) stated_parent) [
      | none ↦ stated_of stated_parent obj (suc k) insts
      | some p ↦ (k, p) ∷ stated_of stated_parent obj (suc k) insts
    ]

unfoldable pub number_objects : Map ℕ ℕ → Map InstanceSlot ℕ → List Object → Option (List Object)
unfolding number_object_tree stated_of
number_objects ranks stated_parent [] = some []
number_objects ranks stated_parent (obj ∷ objects) =
    let stated = stated_of stated_parent obj.local_id 0 obj.symbol_instances in
    elim (number_object_tree ranks stated obj) [
      | none ↦ none
      | some obj' ↦ elim (number_objects ranks stated_parent objects) [
        | none ↦ none
        | some objects' ↦ some (obj' ∷ objects')
      ]
    ]

unfoldable pub number_object_trees : Map InstanceSlot ℕ → Project → Option Project
unfolding number_objects rank_by_symbol
number_object_trees stated_parent project =
    elim (number_objects (rank_by_symbol project.symbols []) stated_parent project.objects) [
      | none ↦ none
      | some objects ↦ some (record project { objects = objects })
    ]
