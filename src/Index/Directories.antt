-- ===== src/Index/Directories.antt =====
-- pkg/index/proto_index.go: parentDir and createDirectorySymbols. A set of paths is the list of its
-- elements, each once.
use mathlib.Core.List.{reverse}
use askl_golang_indexer.Prelude.{
  ℕ, zero, suc, ◌+◌, Bool, true, false, ◌||◌, Option, none, some, List, [], ◌∷◌, ◌++◌,
  if◌then◌else◌, Text, text_beq, Map, lookup, insert, text_eq, nat_eq, length,
}
use askl_golang_indexer.Prelude.Int.{pos}
use askl_golang_indexer.Prelude.Texts.{bytes, trim_left, after_first}
use askl_golang_indexer.Proto.{
  Symbol, Object, new_instance, new_ref, symbol_scope_unspecified, directory,
}
use askl_golang_indexer.Index.Kinds.{
  to_proto_instance_type, instance_containment, instance_sentinel,
}
use askl_golang_indexer.Index.State.{ProtoIndex}
use askl_golang_indexer.Index.Files.{
  file_of, append_instance, append_ref, modify_object, whole_extent,
}

abbrev pub slash : ℕ
slash = b'/'

abbrev pub root : Text
root = slash ∷ []

-- `path[:idx]` for `idx > 0`, and `"/"` otherwise
abbrev pub or_root : Option Text → Text
or_root none = root
or_root (some []) = root
or_root (some (c ∷ s)) = reverse (c ∷ s)

unfoldable pub parent_dir : Text → Text
parent_dir path =
    if text_beq path root
    then root
    else or_root (after_first slash (trim_left slash (reverse path)))

-- `dirSet[dir] = struct{}{}`
unfoldable pub has_text : Text → List Text → Bool
has_text t [] = false
has_text t (u ∷ texts) = text_beq u t || has_text t texts

unfoldable pub add_once : Text → List Text → List Text
unfolding has_text
add_once t texts = if has_text t texts then texts else texts ++ t ∷ []

-- `for { dirSet[dir] = …; if dir == "/" { break }; dir = parentDir(dir) }`
unfoldable pub add_ancestors : ℕ → Text → List Text → Option (List Text)
unfolding add_once parent_dir
add_ancestors zero dir dirs = none
add_ancestors (suc fuel) dir dirs =
    let rest = add_ancestors fuel (parent_dir dir) (add_once dir dirs) in
    if text_beq dir root then some (add_once dir dirs) else rest

unfoldable pub collect_dirs : Map ℕ Text → List Text → Option (List Text)
unfolding add_ancestors
collect_dirs [] dirs = some dirs
collect_dirs ((id, path) ∷ paths) dirs =
    elim (add_ancestors (length path + 3) (parent_dir path) dirs) [
      | none ↦ none
      | some dirs' ↦ collect_dirs paths dirs'
    ]

-- The index, `dirSymbolID` and `dirSentinel`.
pub record Directories : Type 0 where
  pub index : ProtoIndex
  pub symbols : Map Text ℕ
  pub sentinels : Map Text ℕ

-- One DIRECTORY symbol and its sentinel object; `symbolByID` is not written.
unfoldable pub create_directory : Text → Directories → Directories
unfolding to_proto_instance_type
create_directory dir d =
    let i = d.index in
    let symbol : Symbol = record {
      local_id = i.next_symbol_id;
      name = dir;
      scope = symbol_scope_unspecified;
      type = directory;
    } in
    let sentinel : Object = record {
      local_id = i.next_file_id;
      module_path = dir;
      filesystem_path = dir;
      filetype = bytes "directory";
      content = [];
      symbol_instances =
          new_instance i.next_symbol_id (to_proto_instance_type instance_sentinel) (pos 0) (pos 0)
          ∷ [];
      refs = [];
    } in
    record {
      index = record i {
        next_symbol_id = suc i.next_symbol_id;
        next_file_id = suc i.next_file_id;
        project = record i.project {
          symbols = i.project.symbols ++ symbol ∷ [];
          objects = i.project.objects ++ sentinel ∷ [];
        };
      };
      symbols = insert dir i.next_symbol_id d.symbols;
      sentinels = insert dir (length i.project.objects) d.sentinels;
    }

unfoldable pub create_directories : List Text → Directories → Directories
unfolding create_directory
create_directories [] d = d
create_directories (dir ∷ dirs) d = create_directories dirs (create_directory dir d)

-- A write to an object that was found, or none.
abbrev pub write_at : Option (ℕ × (Object → Object)) → ProtoIndex → ProtoIndex
write_at none i = i
write_at (some (p, f)) i = modify_object p f i

-- Step 3: a containment instance on each direct child file.
unfoldable pub containment_of : Map Text ℕ → ℕ → Text → ProtoIndex → Option (ℕ × (Object → Object))
unfolding parent_dir to_proto_instance_type
containment_of symbols id path i = elim (file_of i id) [
  | none ↦ none
  | some (p, o) ↦ (elim (lookup (parent_dir path) symbols) [
    | none ↦ none
    | some symbol_id ↦ some (
      p,
      append_instance (
          new_instance symbol_id (to_proto_instance_type instance_containment) (pos 0)
            (whole_extent o)),
    )
  ])
]

unfoldable pub contain_files : Map Text ℕ → Map ℕ Text → ProtoIndex → ProtoIndex
unfolding containment_of
contain_files symbols [] i = i
contain_files symbols ((id, path) ∷ paths) i =
    contain_files symbols paths (write_at (containment_of symbols id path i) i)

-- Step 4: a reference from the sentinel of each parent directory to the child.
unfoldable pub child_ref : Directories → Text → Option (ℕ × (Object → Object))
unfolding parent_dir
child_ref d child =
    if text_beq (parent_dir child) child then none else elim (lookup child d.symbols) [
      | none ↦ none
      | some symbol_id ↦ (elim (lookup (parent_dir child) d.sentinels) [
        | none ↦ none
        | some p ↦ some (p, append_ref (new_ref symbol_id (pos 0) (pos 0) none))
      ])
    ]

unfoldable pub refer_children : Directories → List Text → ProtoIndex → ProtoIndex
unfolding child_ref
refer_children d [] i = i
refer_children d (child ∷ dirs) i = refer_children d dirs (write_at (child_ref d child) i)

-- Step 2, from empty maps and with the flag set.
unfoldable pub minted : List Text → ProtoIndex → Directories
unfolding create_directories
minted dirs i =
    create_directories dirs (record {
      index = record i { directory_symbols_created = true };
      symbols = [];
      sentinels = [];
    })

unfoldable pub create_from : List Text → ProtoIndex → ProtoIndex
unfolding minted contain_files refer_children
create_from [] i = i
create_from (dir ∷ dirs) i =
    let d = minted (dir ∷ dirs) i in
    refer_children d (dir ∷ dirs) (contain_files d.symbols i.file_path_by_id d.index)

-- `none` where a loop over the ancestors of a path runs out of fuel.
unfoldable pub create_directory_symbols : ProtoIndex → Option ProtoIndex
unfolding collect_dirs create_from
create_directory_symbols i =
    if i.directory_symbols_created then some i else elim (collect_dirs i.file_path_by_id []) [
      | none ↦ none
      | some dirs ↦ some (create_from dirs i)
    ]
