-- ===== src/Examples/Sources.antt =====
-- pkg/parser/file_parser.go on a file with two imports and a use of two types.
use askl_golang_indexer.Prelude.{
  ℕ, ◌≡◌, refl, ap, sym, inl, inr, true, false, Option, none, some, List, [], ◌∷◌, map, Text, In,
  ok, length,
}
use askl_golang_indexer.Prelude.Int.{pos}
use askl_golang_indexer.Prelude.Texts.{bytes}
use askl_golang_indexer.Index.State.{ProtoIndex, Position, new_proto_index}
use askl_golang_indexer.Index.Files.{done, add_file, find_file_id}
use askl_golang_indexer.Index.Recorded.{add_file_again}
use askl_golang_indexer.Indexing.Expand.{DistinctTexts}
use askl_golang_indexer.Parser.Types.{
  Ident, TypeName, TypesObject, type_name, Exprs, ident, star, map_type, no_exprs, more_exprs,
  TypeRef,
}
use askl_golang_indexer.Parser.Packages.Deferred.{with_logs}
use askl_golang_indexer.Index.Directories.{has_text}
use askl_golang_indexer.Parser.Files.Builtins.{add_builtin_type_refs}
use askl_golang_indexer.Parser.Files.Builtins.FirstUses.{add_builtin_type_refs_lem}
use askl_golang_indexer.Parser.Files.Builtins.Uses.{
  names, logs_of_uses, IsFirstUse, builtin_idents_of,
}
use askl_golang_indexer.Parser.Packages.{Postponed}
use askl_golang_indexer.Parser.Files.{
  new_assignment_parser, new_file_parser, parse_imports, add_type_refs,
}
use askl_golang_indexer.Parser.Files.Imports.{
  Import, quoted, raw, nil_path, logs_of, spec_of, with_imports_of, parse_imports_lem,
}
use askl_golang_indexer.Parser.Files.TypeRefs.{with_refs, all_made, all_kept, add_type_refs_lem}
use askl_golang_indexer.Parser.Files.Opened.{
  new_assignment_parser_again, find_file_id-new_file_parser,
}

abbrev start : ProtoIndex
start = new_proto_index (bytes "demo") (bytes "/src")

-- Stand-ins for os.ReadFile, filepath.Clean and sha256.
abbrev read_file : Text → Option (List ℕ)
read_file path = some (bytes "package a")

abbrev clean : Text → Text
clean path = path

abbrev checksum : List ℕ → List ℕ
checksum contents = length contents ∷ []

abbrev opened : ProtoIndex
opened =
    (new_file_parser read_file clean checksum [] (bytes "/src") (bytes "a") (bytes "/src/a.go")
      start).1

opens :
    new_file_parser read_file clean checksum [] (bytes "/src") (bytes "a") (bytes "/src/a.go") start
    ≡ (ok (1, 1), opened)
unfolding new_file_parser
opens = refl

find_file_id-new_file_parser_example : find_file_id (bytes "/src/a.go") opened ≡ done 1
find_file_id-new_file_parser_example =
    find_file_id-new_file_parser read_file clean checksum [] (bytes "/src") (bytes "a")
      (bytes "/src/a.go") 1 1 start opened opens

new_assignment_parser_again_example :
    new_assignment_parser read_file clean checksum []
      (bytes "/src")
      (bytes "a")
      (bytes "/src/a.go")
      opened
    ≡ (ok (1, 1), opened)
new_assignment_parser_again_example =
    new_assignment_parser_again read_file clean checksum [] (bytes "/src") (bytes "a")
      (bytes "/src/a.go") 1 1 start opened opens

abbrev added : ProtoIndex
added =
    (add_file clean checksum none (bytes "/src") (bytes "/src/t.go") (bytes "text/x-go")
      (bytes "package b") start).1

adds :
    add_file clean checksum none
      (bytes "/src")
      (bytes "/src/t.go")
      (bytes "text/x-go")
      (bytes "package b")
      start
    ≡ (done 1, added)
unfolding add_file
adds = refl

add_file_again_example :
    add_file clean checksum none
      (bytes "/")
      (bytes "/src/t.go")
      (bytes "text/plain")
      (bytes "package b")
      added
    ≡ (done 1, added)
add_file_again_example =
    add_file_again clean checksum none (bytes "/src") (bytes "/src/t.go") (bytes "text/x-go")
      (bytes "package b") 1 start added adds (bytes "/") (bytes "text/plain")

abbrev at_offset : ℕ → Position
at_offset n = record { filename = bytes "/src/t.go"; offset = pos n; line = pos 1; column = pos 1 }

abbrev imports : List Import
imports =
    (quoted (bytes "fmt"), (10, 15)) ∷ (raw (bytes "os"), (20, 24)) ∷ (nil_path, (30, 31)) ∷ []

parse_imports_lem_example :
    parse_imports at_offset 1 1 (map spec_of imports) start
    ≡ with_imports_of at_offset 1 1 (logs_of at_offset 1 1 imports) start
parse_imports_lem_example = parse_imports_lem at_offset 1 1 imports start

abbrev type_t : TypeName
type_t = record {
  object = 7;
  name = bytes "T";
  pos = 3;
  is_type_param = false;
  pkg = some (bytes "b");
  is_package_level = true;
}

abbrev use_t : TypeRef
use_t = record { type_name = type_t; use_pos = 40; use_end = 41 }

abbrev none_waits : Postponed
none_waits = record { receiver_refs = []; type_refs = []; index = added }

add_type_refs_lem_example :
    add_type_refs at_offset 1 (use_t ∷ []) none_waits
    ≡ some (
        with_refs at_offset 1 none_waits
          (all_made at_offset 1 added.file_id_by_path (use_t ∷ []))
          (all_kept at_offset 1 added.file_id_by_path (use_t ∷ [])))
add_type_refs_lem_example = add_type_refs_lem at_offset 1 (use_t ∷ []) none_waits has_pkg
  where
    has_pkg :
        (ref : TypeRef) → In ref (use_t ∷ []) → (path : Text) × (ref.type_name.pkg ≡ some path)
    has_pkg ref (inl e) = (bytes "b", ap (λ (r : TypeRef). r.type_name.pkg) (sym e))
    has_pkg ref (inr z) = absurd z

-- The type map[int]*int: the second use of int is passed over.
abbrev int_type : TypeName
int_type = record {
  object = 9;
  name = bytes "int";
  pos = 0;
  is_type_param = false;
  pkg = none;
  is_package_level = false;
}

abbrev int_at : ℕ → Ident
int_at n = record { node = n; name = bytes "int"; pos = n; end = n }

abbrev int_map : Exprs
int_map = more_exprs (map_type (ident (int_at 4)) (star (ident (int_at 8)))) no_exprs

abbrev int_uses : ℕ → Option TypesObject
int_uses n = some (type_name int_type)

one_reference :
    length
      (add_builtin_type_refs int_uses
        (λ name. at_offset 70)
        at_offset
        1
        int_map
        start).references_log
    ≡ 1
unfolding add_builtin_type_refs
one_reference = refl

add_builtin_type_refs_lem_example :
    (us : List (Text × Ident)) × DistinctTexts (names us)
    × ((u : Text × Ident) → In u us → IsFirstUse int_uses (builtin_idents_of int_map) u)
    × ((id : Ident) (tn : TypeName)
        → In id (builtin_idents_of int_map)
        → int_uses id.node ≡ some (type_name tn)
        → tn.pkg ≡ none
        → has_text tn.name (names us) ≡ true)
    × (add_builtin_type_refs int_uses (λ name. at_offset 70) at_offset 1 int_map start
        ≡ with_logs start (logs_of_uses (λ name. at_offset 70) at_offset 1 us))
add_builtin_type_refs_lem_example =
    add_builtin_type_refs_lem int_uses (λ name. at_offset 70) at_offset 1 int_map start
