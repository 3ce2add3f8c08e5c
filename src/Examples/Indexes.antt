-- ===== src/Examples/Indexes.antt =====
-- pkg/index/proto_index.go on an index with one module and one file.
use askl_golang_indexer.Prelude.{
  map, ℕ, ◌≡◌, ◌↔◌, refl, none, some, List, [], ◌∷◌, arith, length, Text,
}
use askl_golang_indexer.Prelude.Int.{ℤ, pos}
use askl_golang_indexer.Prelude.Texts.{bytes}
use askl_golang_indexer.Proto.{Span}
use askl_golang_indexer.Index.Kinds.{scope_global, type_function, instance_definition}
use askl_golang_indexer.Index.State.{ProtoIndex, ByteSpan, no_parent, new_proto_index}
use askl_golang_indexer.Index.Files.{done, add_module, add_file}
use askl_golang_indexer.Index.Symbols.{NewSymbol, proto_span, add_symbol}
use askl_golang_indexer.Index.Directories.{create_directory_symbols, parent_dir}
use askl_golang_indexer.Index.Extents.{LiesIn, proto_span_iff}
use askl_golang_indexer.Index.Ancestors.{create_directory_symbols_once}
use askl_golang_indexer.Index.Sound.{IsSound, add_symbol-IsSound}
use askl_golang_indexer.Proto.{Object}
use askl_golang_indexer.Index.Again.{add_symbol_again}
use askl_golang_indexer.Index.SoundFiles.{new_proto_index-IsSound, add_file-IsSound}

parents :
    (parent_dir (bytes "/src/pkg/a.go") ≡ bytes "/src/pkg")
    × (parent_dir (bytes "/src/") ≡ bytes "/")
    × (parent_dir (bytes "a.go") ≡ bytes "/")
unfolding parent_dir
parents = (refl, refl, refl)

abbrev name_span : ByteSpan
name_span = record { start = pos 5; end = pos 8 }

proto_span_iff_example :
    (proto_span (some name_span) (pos 0) (pos 20) ≡ some (record { start = pos 5; end = pos 8 }))
    ↔ (LiesIn name_span (pos 0) (pos 20)
        × (◌≡◌ {A = Span}
            (record { start = pos 5; end = pos 8 })
            (record { start = pos 5; end = pos 8 })))
proto_span_iff_example =
    proto_span_iff name_span (pos 0) (pos 20) (record { start = pos 5; end = pos 8 })

-- Stand-ins for `filepath.Clean`, on a path that is clean, and for a checksum.
abbrev clean : Text → Text
clean path = path

abbrev checksum : List ℕ → List ℕ
checksum contents = length contents ∷ []

abbrev with_module : ProtoIndex
with_module = (add_module (bytes "example") (new_proto_index (bytes "demo") (bytes "/src"))).1

abbrev contents : List ℕ
contents = bytes "package a; func f() {}"

abbrev with_file : ProtoIndex
with_file =
    (add_file clean checksum (some 1) (bytes "/src") (bytes "/src/pkg/a.go") (bytes "text/x-go")
      contents with_module).1

with_module-IsSound : IsSound with_module
unfolding add_module
with_module-IsSound =
    let h = new_proto_index-IsSound (bytes "demo") (bytes "/src") in
    record { extents = h.extents; backwards = h.backwards }

add_file-IsSound_example : IsSound with_file
add_file-IsSound_example =
    add_file-IsSound clean checksum (some 1) (bytes "/src") (bytes "/src/pkg/a.go")
      (bytes "text/x-go") contents with_module (omega arith) with_module-IsSound

-- Its end lies past the 22 bytes of the file.
abbrev function_f : NewSymbol
function_f = record {
  module_id = 1;
  file_id = 1;
  name = bytes "f";
  scope = scope_global;
  symbol_type = type_function;
  instance_type = instance_definition;
  start = pos 11;
  end = pos 30;
  spans = record {
    name = some (record { start = pos 16; end = pos 17 });
    signature = none;
    content = none;
  };
  parent = no_parent;
}

add_symbol-IsSound_example : IsSound (add_symbol function_f with_file).1
add_symbol-IsSound_example = add_symbol-IsSound function_f with_file (omega arith) (
    add_file-IsSound clean checksum (some 1) (bytes "/src") (bytes "/src/pkg/a.go")
      (bytes "text/x-go") contents with_module (omega arith) with_module-IsSound)

create_directory_symbols_once_example :
    (j : ProtoIndex) × (create_directory_symbols with_file ≡ some j)
    × (create_directory_symbols j ≡ some j)
create_directory_symbols_once_example = create_directory_symbols_once with_file

abbrev with_f : ProtoIndex
with_f = (add_symbol function_f with_file).1

f_added : add_symbol function_f with_file ≡ (done (2, 1), with_f)
unfolding add_symbol add_file add_module
f_added = refl

ends : List Object → List (List ℤ)
ends [] = []
ends (o ∷ objects) = map (λ i. i.end_offset) o.symbol_instances ∷ ends objects

-- The extent is cut off at the end of the file.
f_clamped : ends with_f.project.objects ≡ (pos 22 ∷ pos 22 ∷ []) ∷ []
unfolding ends add_symbol add_file add_module
f_clamped = refl

add_symbol_again_example : add_symbol function_f with_f ≡ (done (2, 1), with_f)
add_symbol_again_example = add_symbol_again function_f with_file with_f (2, 1) f_added
