-- ===== src/Index/Completion.antt =====
-- pkg/index/proto_index.go: createModuleSymbols, resolveModuleImports, and Upload. `Marshal`
-- encodes what `Upload` copies.
use askl_golang_indexer.Prelude.{
  ℕ, not, ◌==◌, Option, none, some, List, [], ◌∷◌, if◌then◌else◌, lookup, insert, text_eq, nat_eq,
}
use askl_golang_indexer.Prelude.Int.{pos, to_int32}
use askl_golang_indexer.Proto.{
  Project, new_instance, new_ref, symbol_scope_unspecified, module_type,
}
use askl_golang_indexer.ObjectTree.{number_object_trees}
use askl_golang_indexer.Index.Kinds.{to_proto_instance_type, instance_containment}
use askl_golang_indexer.Index.State.{ProtoIndex, ModuleInfo, ModuleImportLog, RefDedupKey}
use askl_golang_indexer.Index.Files.{
  file_of, append_symbol, append_instance, append_ref, modify_object, whole_extent,
}
use askl_golang_indexer.Index.References.{is_seen}
use askl_golang_indexer.Index.Directories.{create_directory_symbols}

-- `for _, fileID := range info.fileIDs`
unfoldable pub cover_files : ℕ → List ℕ → ProtoIndex → ProtoIndex
unfolding to_proto_instance_type
cover_files symbol_id [] i = i
cover_files symbol_id (file_id ∷ file_ids) i = elim (file_of i file_id) [
  | none ↦ cover_files symbol_id file_ids i
  | some (p, o) ↦ cover_files symbol_id file_ids (
      modify_object p
        (append_instance (
          new_instance symbol_id (to_proto_instance_type instance_containment) (pos 0)
            (whole_extent o)))
        i)
]

-- One round of the loop over `moduleByID`: a module that has a symbol is skipped.
unfoldable pub create_module_symbol : ℕ → ProtoIndex → ProtoIndex
unfolding cover_files
create_module_symbol module_id i = elim (lookup module_id i.module_by_id) [
  | none ↦ i
  | some info ↦
      if not (info.symbol_id == 0)
      then i
      else let id = i.next_symbol_id in
        let j =
          append_symbol
            (record {
              local_id = id;
              name = info.name;
              scope = symbol_scope_unspecified;
              type = module_type;
            })
            i in
        cover_files id info.file_ids (record j {
          module_by_id = insert module_id (record info { symbol_id = id }) j.module_by_id;
        })
]

unfoldable pub create_each : List (ℕ × ModuleInfo) → ProtoIndex → ProtoIndex
unfolding create_module_symbol
create_each [] i = i
create_each ((module_id, info) ∷ modules) i = create_each modules (create_module_symbol module_id i)

-- The symbol of the module that is imported, if the module is indexed and has one.
unfoldable pub imported_symbol : ModuleImportLog → ProtoIndex → Option ℕ
imported_symbol imp i = elim (lookup imp.to_module_name i.modules_by_name) [
  | none ↦ none
  | some m ↦ (elim (lookup m i.module_by_id) [
    | none ↦ none
    | some info ↦ if info.symbol_id == 0 then none else some info.symbol_id
  ])
]

unfoldable pub place_import :
    ModuleImportLog → List RefDedupKey → ProtoIndex → List RefDedupKey × ProtoIndex
unfolding imported_symbol is_seen
place_import imp seen i = elim (imported_symbol imp i) [
  | none ↦ (seen, i)
  | some symbol_id ↦ (elim (file_of i imp.from_file_id) [
    | none ↦ (seen, i)
    | some (p, o) ↦
        let start = to_int32 imp.start_offset in
        let end = to_int32 imp.end_offset in
        let key : RefDedupKey = record {
          to_symbol_id = symbol_id;
          from_file = imp.from_file_id;
          start = start;
          end = end;
        } in
        if is_seen key seen
        then (seen, i)
        else (key ∷ seen, modify_object p (append_ref (new_ref symbol_id start end none)) i)
  ])
]

unfoldable pub import_loop : List ModuleImportLog → List RefDedupKey → ProtoIndex → ProtoIndex
unfolding place_import
import_loop [] seen i = record i { module_imports_log = [] }
import_loop (imp ∷ log) seen i =
    let placed = place_import imp seen i in import_loop log placed.0 placed.1

unfoldable pub resolve_module_imports : ProtoIndex → ProtoIndex
unfolding import_loop
resolve_module_imports i = import_loop i.module_imports_log [] i

unfoldable pub create_module_symbols : ProtoIndex → ProtoIndex
unfolding create_each resolve_module_imports
create_module_symbols i = resolve_module_imports (create_each i.module_by_id i)

-- `none` where a loop of the model runs out of fuel.
unfoldable pub upload : ProtoIndex → Option (Project × ProtoIndex)
unfolding create_module_symbols create_directory_symbols number_object_trees
upload i = elim (create_directory_symbols (create_module_symbols i)) [
  | none ↦ none
  | some j ↦ (elim (number_object_trees j.stated_parent j.project) [
    | none ↦ none
    | some project ↦ some (project, record j { project = project })
  ])
]
