-- ===== src/Parser/Files.antt =====
-- pkg/parser/file_parser.go and assignment_parser.go: how a file's parser is made, its imports, the
-- documentation instances, and the references to types and to package-level values.
pub mod Imports
pub mod TypeRefs
pub mod Opened
pub mod Builtins
use askl_golang_indexer.Prelude.{
  ℕ, Bool, false, not, ◌&&◌, ◌||◌, ◌==◌, Option, none, some, List, [], ◌∷◌, ◌++◌, if◌then◌else◌,
  Text, Result, ok, err,
}
use askl_golang_indexer.Prelude.Texts.{bytes}
use askl_golang_indexer.Index.Kinds.{ScopeCode, TypeCode, instance_documentation}
use askl_golang_indexer.Index.State.{ProtoIndex, Position, ByteSpan, no_parent}
use askl_golang_indexer.Index.Files.{
  Outcome, done, failed, Failure, add_module, add_module_import, add_file, find_file_id,
}
use askl_golang_indexer.Index.Symbols.{add_symbol}
use askl_golang_indexer.Index.References.{add_reference}
use askl_golang_indexer.Parser.Types.{Ident, type_name, TypeRef}
use askl_golang_indexer.Parser.Packages.{Postponed, add_deferred_type_ref, type_full_name, or_panic}

pub data FileError : Type 0 where
  unreadable : FileError
  not_added : Failure → FileError

-- `if baseDir == "" { baseDir = pkg.Dir }`
abbrev pub base_dir_of : Text → Text → Text
base_dir_of [] dir = dir
base_dir_of (c ∷ root_path) dir = c ∷ root_path

abbrev pub go_file_type : Text
go_file_type = bytes "text/x-go"

-- The identifiers of the module and the file.
abbrev pub opened_as : ℕ → Outcome ℕ × ProtoIndex → Result FileError (ℕ × ℕ) × ProtoIndex
opened_as m (done file_id, i) = (ok (m, file_id), i)
opened_as m (failed e, i) = (err (not_added e), i)

module _ (read_file : Text → Option (List ℕ)) (clean : Text → Text) (sha256 : List ℕ → List ℕ) where
  unfoldable pub open_contents :
      ℕ → Text → Text → Option (List ℕ) → ProtoIndex → Result FileError (ℕ × ℕ) × ProtoIndex
  unfolding add_file
  open_contents m base_dir path none i = (err unreadable, i)
  open_contents m base_dir path (some contents) i =
      opened_as m (add_file clean sha256 (some m) base_dir path go_file_type contents i)

  -- `NewFileParser`
  unfoldable pub new_file_parser :
      Text → Text → Text → Text → ProtoIndex → Result FileError (ℕ × ℕ) × ProtoIndex
  unfolding add_module open_contents
  new_file_parser root_path dir pkg_path path i =
      let added = add_module pkg_path i in
      open_contents added.0 (base_dir_of root_path dir) path (read_file path) added.1

  -- `NewAssignmentParser` does the same.
  abbrev pub new_assignment_parser :
      Text → Text → Text → Text → ProtoIndex → Result FileError (ℕ × ℕ) × ProtoIndex
  new_assignment_parser root_path dir pkg_path path i =
      new_file_parser root_path dir pkg_path path i

-- `span`; the position 0 is `token.NoPos`.
unfoldable pub span : (ℕ → Position) → ℕ → ℕ → Option ByteSpan
span fset from to =
    if (from == 0) || (to == 0)
    then none
    else some (record { start = (fset from).offset; end = (fset to).offset })

-- `addDocInstance`, for a comment from one position to another; an error is only logged.
unfoldable pub add_doc_instance :
    (ℕ → Position) → ℕ → ℕ → Text → ScopeCode → TypeCode → Option (ℕ × ℕ) → ProtoIndex → ProtoIndex
unfolding add_symbol
add_doc_instance fset m file_id name scope symbol_type none i = i
add_doc_instance fset m file_id name scope symbol_type (some (from, to)) i =
    (add_symbol
      (record {
        module_id = m;
        file_id = file_id;
        name = name;
        scope = scope;
        symbol_type = symbol_type;
        instance_type = instance_documentation;
        start = (fset from).offset;
        end = (fset to).offset;
        spans = record { name = none; signature = none; content = none };
        parent = no_parent;
      })
      i).1

-- An `ast.ImportSpec`: the value of its path, or none where that is nil, and where it stands.
pub record ImportSpec : Type 0 where
  pub path : Option Text
  pub pos : ℕ
  pub end : ℕ

-- The text without its last byte, and whether that is a quote.
unfoldable pub last_is_quote : Text → Bool
last_is_quote [] = false
last_is_quote (c ∷ []) = c == b'"'
last_is_quote (c ∷ d ∷ t) = last_is_quote (d ∷ t)

unfoldable pub without_last : Text → Text
without_last [] = []
without_last (c ∷ []) = []
without_last (c ∷ d ∷ t) = c ∷ without_last (d ∷ t)

-- `importPath[1 : len(importPath)-1]`, between two quotes
unfoldable pub unquote : Text → Text
unfolding last_is_quote without_last
unquote [] = []
unquote (c ∷ []) = c ∷ []
unquote (c ∷ d ∷ t) = if c == b'"' && last_is_quote (d ∷ t) then without_last (d ∷ t) else c ∷ d ∷ t

abbrev pub add_import : (ℕ → Position) → ℕ → ℕ → ImportSpec → Option Text → ProtoIndex → ProtoIndex
add_import fset m file_id spec none i = i
add_import fset m file_id spec (some value) i =
    add_module_import m (unquote value) file_id (fset spec.pos).offset (fset spec.end).offset i

unfoldable pub parse_imports : (ℕ → Position) → ℕ → ℕ → List ImportSpec → ProtoIndex → ProtoIndex
unfolding unquote add_module_import
parse_imports fset m file_id [] i = i
parse_imports fset m file_id (spec ∷ specs) i =
    parse_imports fset m file_id specs (add_import fset m file_id spec spec.path i)

-- `addTypeRefs`: a reference to a type waits where the file of the type is not in the index yet.
abbrev pub add_or_wait : (ℕ → Position) → ℕ → TypeRef → Outcome ℕ → Postponed → Option Postponed
add_or_wait fset file_id ref (failed e) p = some (
    add_deferred_type_ref
      (record {
        from_file_id = file_id;
        type_name = ref.type_name;
        use_start = fset ref.use_pos;
        use_end = fset ref.use_end;
        fset = fset;
      })
      p)
add_or_wait fset file_id ref (done _) p = or_panic (type_full_name ref.type_name) (λ full_name.
    some (record p {
      index =
          (add_reference file_id (fset ref.type_name.pos) full_name (fset ref.use_pos)
            (fset ref.use_end) none p.index).1;
    }))

unfoldable pub add_type_refs : (ℕ → Position) → ℕ → List TypeRef → Postponed → Option Postponed
unfolding find_file_id add_reference
add_type_refs fset file_id [] p = some p
add_type_refs fset file_id (ref ∷ refs) p =
    or_panic
      (add_or_wait fset file_id ref (find_file_id (fset ref.type_name.pos).filename p.index) p)
      (add_type_refs fset file_id refs)

-- A variable or constant: its name, its package or nil, where it stands, and whether its parent is
-- the scope of its package.
pub record ValueObject : Type 0 where
  pub name : Text
  pub pkg : Option Text
  pub pos : ℕ
  pub is_package_level : Bool

abbrev pub add_data_ref_in :
    Option Text
    → (ℕ → Position)
    → ℕ
    → ValueObject
    → Ident
    → ProtoIndex
    → Outcome (Unit {0}) × ProtoIndex
add_data_ref_in none fset file_id obj id i = (done tt, i)
add_data_ref_in (some path) fset file_id obj id i =
    if not obj.is_package_level
    then (done tt, i)
    else add_reference file_id (fset obj.pos) (path ++ (bytes "." ++ obj.name)) (fset id.pos)
        (fset id.end) none i

-- `addPackageLevelDataRef`
unfoldable pub add_package_level_data_ref :
    (ℕ → Position) → ℕ → ValueObject → Ident → ProtoIndex → Outcome (Unit {0}) × ProtoIndex
unfolding add_reference
add_package_level_data_ref fset file_id obj id i = add_data_ref_in obj.pkg fset file_id obj id i
