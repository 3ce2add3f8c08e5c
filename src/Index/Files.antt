-- ===== src/Index/Files.antt =====
-- pkg/index/proto_index.go: AddModule, AddModuleImport, AddFile and FindFileId. `filepath.Clean` and
-- `sha256.Sum256` are library code, so they are parameters.
use askl_golang_indexer.Prelude.{
  ℕ, suc, ◌+◌, ◌%◌, Bool, true, false, Option, none, some, List, [], ◌∷◌, ◌++◌, if◌then◌else◌, Text,
  text_beq, lookup, insert, text_eq, nat_eq, length, get_elem?, set, leb,
}
use Prim.Native.Nat.{◌/◌}
use askl_golang_indexer.Prelude.Int.{ℤ, pos, to_int32}
use askl_golang_indexer.Prelude.Texts.{cut_prefix}
use askl_golang_indexer.Proto.{
  Symbol, SymbolInstance, SymbolRef, Object, new_instance, symbol_scope_unspecified, file,
}
use askl_golang_indexer.Index.Kinds.{to_proto_instance_type}
use askl_golang_indexer.Index.Filetype.{filetype_to_instance_type}
use askl_golang_indexer.Index.State.{ProtoIndex, ModuleInfo}

-- The errors of the operations, by what their messages say.
pub data Failure : Type 0 where
  module_not_found file_not_found hash_mismatch type_not_set : Failure
  start_out_of_range end_out_of_range symbol_not_found not_one_symbol builtin_not_found : Failure
  invalid_start invalid_to unresolved : Failure

-- `(value, error)`
pub data Outcome {ℓ} (A : Type ℓ) : Type ℓ where
  done : A → Outcome A
  failed : Failure → Outcome A

-- A write through a pointer to an object.
abbrev pub modify : List Object → ℕ → (Object → Object) → List Object
modify objects p f = elim (get_elem? objects p) [ none ↦ objects | some o ↦ set objects p (f o) ]

abbrev pub modify_object : ℕ → (Object → Object) → ProtoIndex → ProtoIndex
modify_object p f i = record i {
  project = record i.project { objects = modify i.project.objects p f };
}

-- `i.fileByID[fileID]`, nil where it is missing: the position of the object, and the object.
abbrev pub file_of : ProtoIndex → ℕ → Option (ℕ × Object)
file_of i id = elim (lookup id i.file_by_id) [
  | none ↦ none
  | some p ↦ (elim (get_elem? i.project.objects p) [ none ↦ none | some o ↦ some (p, o) ])
]

abbrev pub append_instance : SymbolInstance → Object → Object
append_instance inst o = record o { symbol_instances = o.symbol_instances ++ inst ∷ [] }

abbrev pub append_ref : SymbolRef → Object → Object
append_ref ref o = record o { refs = o.refs ++ ref ∷ [] }

-- `i.project.Symbols = append(…)`, `i.symbolByID[…] = …` and `i.symbolNameByID[…] = …`, under the
-- next identifier
abbrev pub append_symbol : Symbol → ProtoIndex → ProtoIndex
append_symbol symbol i = record i {
  project = record i.project { symbols = i.project.symbols ++ symbol ∷ [] };
  next_symbol_id = suc i.next_symbol_id;
  symbol_by_id = insert symbol.local_id symbol i.symbol_by_id;
  symbol_name_by_id = insert symbol.local_id symbol.name i.symbol_name_by_id;
}

-- `[0, len(content))`, as the int32 that it is stored as
abbrev pub whole_extent : Object → ℤ
whole_extent o = to_int32 (pos (length o.content))

unfoldable pub add_module : Text → ProtoIndex → ℕ × ProtoIndex
add_module name i = elim (lookup name i.modules_by_name) [
  | some id ↦ (id, i)
  | none ↦ (
    i.next_module_id,
    record i {
      next_module_id = suc i.next_module_id;
      modules_by_name = insert name i.next_module_id i.modules_by_name;
      module_by_id =
          insert i.next_module_id (record { name = name; symbol_id = 0; file_ids = [] })
            i.module_by_id;
    },
  )
]

unfoldable pub add_module_import : ℕ → Text → ℕ → ℤ → ℤ → ProtoIndex → ProtoIndex
add_module_import from_module to_name from_file start end i = record i {
  module_imports_log =
      i.module_imports_log
      ++ (record {
        from_module_id = from_module;
        to_module_name = to_name;
        from_file_id = from_file;
        start_offset = start;
        end_offset = end;
      })
        ∷ [];
}

unfoldable pub find_file_id : Text → ProtoIndex → Outcome ℕ
find_file_id path i = elim (lookup path i.file_id_by_path) [
  | none ↦ failed file_not_found
  | some id ↦ done id
]

-- `moduleId != nil` and the module is not there
abbrev pub missing_module : Option ℕ → ProtoIndex → Bool
missing_module none i = false
missing_module (some m) i = elim (lookup m i.module_by_id) [ none ↦ true | some _ ↦ false ]

unfoldable pub module_path_of : Text → Text → Text
module_path_of [] path = path
module_path_of (c ∷ base_dir) path = elim (cut_prefix path (c ∷ base_dir)) [
  | none ↦ path
  | some rel_path ↦ rel_path
]

-- `if info != nil { info.fileIDs = append(…) }`
abbrev pub join_found : Option ModuleInfo → ℕ → ℕ → ProtoIndex → ProtoIndex
join_found none m file_id i = i
join_found (some info) m file_id i = record i {
  module_by_id = insert m (record info { file_ids = info.file_ids ++ file_id ∷ [] }) i.module_by_id;
}

-- `i.fileModuleID[fileID] = …`, and the module's list of files
abbrev pub join_module : Option ℕ → ℕ → ProtoIndex → ProtoIndex
join_module none file_id i = i
join_module (some m) file_id i =
    join_found (lookup m i.module_by_id) m file_id
      (record i { file_module_id = insert file_id m i.file_module_id })

-- `fmt.Sprintf("%x", …)`: two lower-case digits for each byte
abbrev pub hex_digit : ℕ → ℕ
hex_digit d = if leb 10 d then d + 87 else d + 48

abbrev pub hex : List ℕ → Text
hex [] = []
hex (b ∷ s) = hex_digit (b / 16) ∷ hex_digit (b % 16) ∷ hex s

module _ (clean : Text → Text) (sha256 : List ℕ → List ℕ) where
  abbrev pub compute_hash : List ℕ → Text
  compute_hash contents = hex (sha256 contents)

  -- What follows the checks: the object with its FILE symbol and its first instance.
  unfoldable pub create_file :
      Option ℕ → Text → Text → Text → List ℕ → ProtoIndex → Outcome ℕ × ProtoIndex
  unfolding module_path_of filetype_to_instance_type to_proto_instance_type
  create_file module_id base_dir path filetype contents i =
      let file_id = i.next_file_id in
      let symbol_id = i.next_symbol_id in
      let inst =
        new_instance symbol_id (to_proto_instance_type (filetype_to_instance_type filetype)) (pos 0)
          (to_int32 (pos (length contents))) in
      let object : Object = record {
        local_id = file_id;
        module_path = module_path_of base_dir path;
        filesystem_path = path;
        filetype = filetype;
        content = contents;
        symbol_instances = inst ∷ [];
        refs = [];
      } in
      let symbol : Symbol = record {
        local_id = symbol_id;
        name = path;
        scope = symbol_scope_unspecified;
        type = file;
      } in
      let j = append_symbol symbol i in
      let k = record j {
        next_file_id = suc file_id;
        project = record j.project { objects = j.project.objects ++ object ∷ [] };
        file_symbol_by_object_id = insert file_id symbol_id j.file_symbol_by_object_id;
        file_by_id = insert file_id (length j.project.objects) j.file_by_id;
        file_path_by_id = insert file_id path j.file_path_by_id;
        file_id_by_path = insert path file_id j.file_id_by_path;
        file_hash_by_path = insert path (compute_hash contents) j.file_hash_by_path;
      } in
      (done file_id, join_module module_id file_id k)

  -- A path that is known already: its identifier, if the contents have the stored hash.
  unfoldable pub known_file : Text → List ℕ → ℕ → ProtoIndex → Outcome ℕ × ProtoIndex
  known_file path contents file_id i =
      let stored : Text = elim (lookup path i.file_hash_by_path) [ none ↦ [] | some h ↦ h ] in
      if text_beq (compute_hash contents) stored
      then (done file_id, i)
      else (failed hash_mismatch, i)

  unfoldable pub file_for :
      Option ℕ → Text → Text → Text → List ℕ → Option ℕ → ProtoIndex → Outcome ℕ × ProtoIndex
  unfolding create_file known_file
  file_for module_id base_dir path filetype contents none i =
      create_file module_id base_dir path filetype contents i
  file_for module_id base_dir path filetype contents (some file_id) i =
      known_file path contents file_id i

  unfoldable pub add_file :
      Option ℕ → Text → Text → Text → List ℕ → ProtoIndex → Outcome ℕ × ProtoIndex
  unfolding file_for
  add_file module_id base_dir given_path filetype contents i =
      let path = clean given_path in
      if missing_module module_id i
      then (failed module_not_found, i)
      else file_for module_id base_dir path filetype contents (lookup path i.file_id_by_path) i
