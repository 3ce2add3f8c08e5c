-- ===== src/Index/Queries.antt =====
-- pkg/index/proto_index.go: FindSymbolInstanceId, FindSymbolId, GetAllSymbols, FindBuiltinInstance
-- and GetAllReferencesNames; pkg/index/symbols.go: SymbolDecl with Compare, ReferenceNames.
use askl_golang_indexer.Prelude.{
  ℕ, ◌^◌, ◌-◌, Bool, true, false, not, ◌&&◌, ◌||◌, ◌==◌, Option, none, some, List, [], ◌∷◌, ◌++◌,
  if◌then◌else◌, Text, text_beq, Map, lookup, text_eq, nat_eq,
}
use askl_golang_indexer.Prelude.Int.{ℤ, pos, ltb_ℤ, leb_ℤ, eqb_ℤ, ◌-ℤ◌}
use askl_golang_indexer.Prelude.Texts.{bytes, has_suffix, has_infix}
use askl_golang_indexer.Proto.{Symbol, module_type, SymbolRef}
use askl_golang_indexer.Index.Kinds.{ScopeCode, TypeCode, from_proto_scope}
use askl_golang_indexer.Index.State.{
  ProtoIndex, Position, InstanceEntry, lookup_key_eq, symbol_key_eq,
}
use askl_golang_indexer.Index.Files.{
  Outcome, done, failed, symbol_not_found, not_one_symbol, builtin_not_found, file_of,
}
use askl_golang_indexer.Index.Symbols.{listed}
use askl_golang_indexer.Index.Completion.{create_module_symbols}

unfoldable pub find_symbol_instance_id : Text → ScopeCode → TypeCode → ProtoIndex → List ℕ
find_symbol_instance_id name scope symbol_type i = listed (
    lookup (record { name = name; scope = scope; symbol_type = symbol_type }) i.instances_by_lookup)

unfoldable pub matching : ℕ → TypeCode → List InstanceEntry → List InstanceEntry
matching symbol_id symbol_type [] = []
matching symbol_id symbol_type (e ∷ entries) =
    let rest = matching symbol_id symbol_type entries in
    if e.symbol_id == symbol_id && eqb_ℤ e.symbol_type symbol_type then e ∷ rest else rest

abbrev pub the_one : ℕ → List InstanceEntry → Outcome (ℕ × ℕ)
the_one symbol_id (e ∷ []) = done (symbol_id, e.instance_id)
the_one symbol_id _ = failed not_one_symbol

unfoldable pub find_symbol_id : ℕ → Text → ScopeCode → TypeCode → ProtoIndex → Outcome (ℕ × ℕ)
unfolding matching
find_symbol_id file_id name scope symbol_type i =
    elim (lookup (record { name = name; scope = scope }) i.symbol_by_key) [
      | none ↦ failed symbol_not_found
      | some id ↦ the_one id (matching id symbol_type (listed (lookup file_id i.instances_by_file)))
    ]

pub record SymbolDecl : Type 0 where
  pub module_id : ℕ
  pub file_id : ℕ
  pub name : Text
  pub scope : ScopeCode
  pub symbol_type : TypeCode
  pub start : Position
  pub end : Position

abbrev pub text_or_empty : Option Text → Text
text_or_empty none = []
text_or_empty (some t) = t

abbrev pub number_or_zero : Option ℕ → ℕ
number_or_zero none = 0
number_or_zero (some n) = n

abbrev pub position_in : Text → ℤ → Position
position_in path offset = record { filename = path; offset = offset; line = pos 0; column = pos 0 }

abbrev pub path_of : ProtoIndex → ℕ → Text
path_of i file_id = text_or_empty (lookup file_id i.file_path_by_id)

unfoldable pub decls_of : ProtoIndex → ℕ → List InstanceEntry → List SymbolDecl
unfolding from_proto_scope
decls_of i file_id [] = []
decls_of i file_id (e ∷ entries) = elim (lookup e.symbol_id i.symbol_by_id) [
  | none ↦ decls_of i file_id entries
  | some symbol ↦
      (record {
        module_id = number_or_zero (lookup file_id i.file_module_id);
        file_id = file_id;
        name = symbol.name;
        scope = from_proto_scope symbol.scope;
        symbol_type = e.symbol_type;
        start = position_in (path_of i file_id) e.start;
        end = position_in (path_of i file_id) e.end;
      })
      ∷ decls_of i file_id entries
]

unfoldable pub decls_in : ProtoIndex → Map ℕ (List InstanceEntry) → List SymbolDecl
unfolding decls_of
decls_in i [] = []
decls_in i ((file_id, entries) ∷ files) = decls_of i file_id entries ++ decls_in i files

abbrev pub get_all_symbols : ProtoIndex → List SymbolDecl
get_all_symbols i = decls_in i i.instances_by_file

abbrev pub is_builtin_path : Text → Bool
is_builtin_path path =
    has_suffix path (bytes "/builtin/builtin.go") || has_suffix path (bytes "/src/unsafe/unsafe.go")

unfoldable pub first_named : ProtoIndex → Text → List InstanceEntry → Option InstanceEntry
first_named i name [] = none
first_named i name (e ∷ entries) = elim (lookup e.symbol_id i.symbol_by_id) [
  | none ↦ first_named i name entries
  | some symbol ↦ if has_infix symbol.name name then some e else first_named i name entries
]

unfoldable pub find_builtin :
    ProtoIndex → Text → Map ℕ (List InstanceEntry) → Outcome (ℕ × Position × Position)
unfolding first_named
find_builtin i name [] = failed builtin_not_found
find_builtin i name ((file_id, entries) ∷ files) =
    let rest = find_builtin i name files in
    if not (is_builtin_path (path_of i file_id)) then rest else elim (first_named i name entries) [
      | none ↦ rest
      | some e ↦
          done (
            file_id,
            position_in (path_of i file_id) e.start,
            position_in (path_of i file_id) e.end,
          )
    ]

abbrev pub find_builtin_instance : Text → ProtoIndex → Outcome (ℕ × Position × Position)
find_builtin_instance name i = find_builtin i name i.instances_by_file

pub record ReferenceNames : Type 0 where
  pub from : Text
  pub to : Text
  pub from_file : Text

abbrev pub covers_ref : InstanceEntry → SymbolRef → Bool
covers_ref e ref = leb_ℤ e.start ref.from_offset_start && leb_ℤ ref.from_offset_end e.end

-- `bestInst`, with `bestRange`: the narrowest instance so far
unfoldable pub narrowest :
    SymbolRef → List InstanceEntry → ℤ → Option InstanceEntry → Option InstanceEntry
narrowest ref [] best_range best = best
narrowest ref (e ∷ entries) best_range best =
    let better = narrowest ref entries (e.end -ℤ e.start) (some e) in
    let same = narrowest ref entries best_range best in
    if covers_ref e ref && ltb_ℤ (e.end -ℤ e.start) best_range then better else same

-- `math.MaxInt`
abbrev pub max_int : ℤ
max_int = pos (2 ^ 63 - 1)

abbrev pub is_module_symbol : Option Symbol → Bool
is_module_symbol none = false
is_module_symbol (some symbol) = elim symbol.type [ module_type ↦ true | _ ↦ false ]

abbrev pub module_name_of : ProtoIndex → ℕ → Text
module_name_of i file_id =
    elim (lookup (number_or_zero (lookup file_id i.file_module_id)) i.module_by_id) [
      | none ↦ []
      | some info ↦ info.name
    ]

unfoldable pub names_of_ref : ProtoIndex → ℕ → SymbolRef → List ReferenceNames
unfolding narrowest
names_of_ref i file_id ref =
    let to_name = text_or_empty (lookup ref.to_symbol_local_id i.symbol_name_by_id) in
    elim (narrowest ref (listed (lookup file_id i.instances_by_file)) max_int none) [
      | some e ↦
          (record {
            from = text_or_empty (lookup e.symbol_id i.symbol_name_by_id);
            to = to_name;
            from_file = path_of i file_id;
          })
          ∷ []
      | none ↦
          if is_module_symbol (lookup ref.to_symbol_local_id i.symbol_by_id)
            && not (text_beq (module_name_of i file_id) [])
          then (record {
            from = module_name_of i file_id;
            to = to_name;
            from_file = path_of i file_id;
          })
            ∷ []
          else []
    ]

unfoldable pub names_of_refs : ProtoIndex → ℕ → List SymbolRef → List ReferenceNames
unfolding names_of_ref
names_of_refs i file_id [] = []
names_of_refs i file_id (ref ∷ refs) = names_of_ref i file_id ref ++ names_of_refs i file_id refs

unfoldable pub names_in : ProtoIndex → Map ℕ ℕ → List ReferenceNames
unfolding names_of_refs
names_in i [] = []
names_in i ((file_id, p) ∷ files) = elim (file_of i file_id) [
  | none ↦ names_in i files
  | some (q, o) ↦ names_of_refs i file_id o.refs ++ names_in i files
]

-- The module symbols are created first.
unfoldable pub get_all_references_names : ProtoIndex → List ReferenceNames × ProtoIndex
unfolding create_module_symbols names_in
get_all_references_names i = let j = create_module_symbols i in (names_in j j.file_by_id, j)
