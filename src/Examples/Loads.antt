-- ===== src/Examples/Loads.antt =====
-- pkg/parser on a program of two packages, one of which imports the other.
use askl_golang_indexer.Prelude.{
  ℕ, ◌≡◌, refl, ap, sym, inl, inr, ◌⊎◌, Bool, true, false, ◌==◌, Option, none, some, [], ◌∷◌, ◌++◌,
  arith, Text, In, if◌then◌else◌,
}
use askl_golang_indexer.Prelude.Int.{pos}
use askl_golang_indexer.Prelude.Texts.{bytes}
use askl_golang_indexer.Index.State.{ProtoIndex, Position, new_proto_index}
use askl_golang_indexer.Index.Directories.{has_text}
use askl_golang_indexer.Index.References.{is_valid}
use askl_golang_indexer.Index.Files.{add_file}
use askl_golang_indexer.Indexing.Expand.{DistinctTexts}
use askl_golang_indexer.Parser.Types.{TypeName}
use askl_golang_indexer.Parser.Stage.{
  Parsable, StageState, submit, receive, hand, start, nest, finish, Reach, fresh, called, later,
}
use askl_golang_indexer.Parser.Packages.{
  func_decl, Package, Object, package_key, unique_packages, position_for_object, MethodReceiverRef,
  Postponed, resolve_deferred_refs,
}
use askl_golang_indexer.Parser.Packages.Dedup.{keys, unique_packages_lem}
use askl_golang_indexer.Parser.Packages.Lookup.{position_for_object-IsValid}
use askl_golang_indexer.Parser.Packages.Deferred.{
  with_logs, receiver_logs, type_logs, resolve_deferred_refs_lem,
}
use askl_golang_indexer.Parser.Items.{
  Item, package_item, files_of, package_stage, assignment_stage, package_parse, assignment_parse,
}
use askl_golang_indexer.Parser.Items.Imports.{
  SameImports, IsParsed, IsMistaken, Imported, itself, by_import, package_stage_lem,
  assignment_stage_lem,
}

abbrev at_line : ℕ → Position
at_line n = record { filename = bytes "/src/t.go"; offset = pos n; line = pos n; column = pos 1 }

abbrev package_b : Package
package_b = record {
  id = bytes "b";
  pkg_path = bytes "b";
  compiled_go_files = [];
  go_files = [];
  syntax = [];
  imports = [];
  types_path = some (bytes "b");
  fset = at_line;
}

abbrev package_a : Package
package_a = record {
  id = bytes "a";
  pkg_path = bytes "a";
  compiled_go_files = [];
  go_files = [];
  syntax = [];
  imports = 1 ∷ [];
  types_path = some (bytes "a");
  fset = at_line;
}

abbrev packages : ℕ → Package
packages h = if h == 0 then package_a else package_b

unique_packages_lem_example :
    DistinctTexts (keys packages (unique_packages packages (some 0 ∷ none ∷ some 1 ∷ some 0 ∷ [])))
    × ((h : ℕ)
        → In h (unique_packages packages (some 0 ∷ none ∷ some 1 ∷ some 0 ∷ []))
        → In (some h) (some 0 ∷ none ∷ some 1 ∷ some 0 ∷ []))
    × ((h : ℕ)
        → In (some h) (some 0 ∷ none ∷ some 1 ∷ some 0 ∷ [])
        → (package_key packages h ≡ [])
          ⊎ (has_text
                (package_key packages h)
                (keys packages (unique_packages packages (some 0 ∷ none ∷ some 1 ∷ some 0 ∷ [])))
              ≡ true))
unique_packages_lem_example = unique_packages_lem packages (some 0 ∷ none ∷ some 1 ∷ some 0 ∷ [])

unique_two : unique_packages packages (some 0 ∷ none ∷ some 1 ∷ some 0 ∷ []) ≡ 0 ∷ 1 ∷ []
unfolding unique_packages
unique_two = refl

-- The package b with a file that declares F, which is found by its name.
abbrev package_f : Package
package_f = record package_b {
  compiled_go_files = bytes "/src/t.go" ∷ [];
  syntax =
      (func_decl false (some (record { node = 1; name = bytes "F"; pos = 9; end = 10 })) ∷ []) ∷ [];
}

abbrev object_f : Object
object_f = record { name = bytes "F"; pkg = some (bytes "b"); pos = 0 }

found_f : position_for_object (package_a ∷ package_f ∷ []) [] (some object_f) ≡ some (at_line 9)
unfolding position_for_object
found_f = refl

position_for_object-IsValid_example : is_valid (at_line 9) ≡ true
position_for_object-IsValid_example =
    position_for_object-IsValid (package_a ∷ package_f ∷ []) [] (some object_f) (at_line 9) found_f

abbrev type_t : TypeName
type_t = record {
  object = 7;
  name = bytes "T";
  pos = 3;
  is_type_param = false;
  pkg = some (bytes "b");
  is_package_level = true;
}

abbrev with_file : ProtoIndex
with_file =
    (add_file (λ path. path) (λ contents. contents) none (bytes "/src") (bytes "/src/t.go")
      (bytes "text/x-go") (bytes "package b") (new_proto_index (bytes "demo") (bytes "/src"))).1

abbrev receiver : MethodReceiverRef
receiver = record {
  type_name = type_t;
  method_full_name = bytes "b.T.M";
  method_pos = at_line 5;
  fset = at_line;
}

abbrev waiting : Postponed
waiting = record { receiver_refs = receiver ∷ []; type_refs = []; index = with_file }

resolve_deferred_refs_lem_example :
    resolve_deferred_refs waiting
    ≡ some (record {
      receiver_refs = [];
      type_refs = [];
      index = with_logs with_file (
          receiver_logs with_file.file_id_by_path (receiver ∷ [])
          ++ type_logs with_file.file_id_by_path []);
    })
resolve_deferred_refs_lem_example = resolve_deferred_refs_lem waiting has_pkg (λ ref m. absurd m)
  where
    has_pkg :
        (ref : MethodReceiverRef)
        → In ref (receiver ∷ [])
        → (path : Text) × (ref.type_name.pkg ≡ some path)
    has_pkg ref (inl e) = (bytes "b", ap (λ (r : MethodReceiverRef). r.type_name.pkg) (sym e))
    has_pkg ref (inr z) = absurd z

-- No file is opened here, and none fails.
abbrev opened : ℕ → Text → Option Text
opened h file = none

abbrev no_failure : ℕ → ℕ → Option Text
no_failure h n = none

abbrev stage : Parsable Item
stage = package_stage packages opened (λ file. true) no_failure

abbrev later_stage : Parsable Item
later_stage = assignment_stage packages opened no_failure

abbrev parsed : StageState Item
parsed = record {
  channel = [];
  spawned = [];
  in_hand = none;
  handed = [];
  running = [];
  parsed = bytes "b" ∷ bytes "a" ∷ [];
  waiting = 0;
  errs = [];
  submitted = package_item 1 ∷ package_item 0 ∷ [];
  begun = package_item 1 ∷ package_item 0 ∷ [];
}

stage_run : Reach stage 1 parsed
unfolding submit has_text package_parse
stage_run =
    let at_a =
      later
        (later (later (called (package_item 0) fresh) (receive (package_item 0) [] refl refl refl))
          (hand (package_item 0) refl (omega arith)))
        (start (package_item 0) [] refl (omega arith)) in
    let a_done =
      later (later at_a (nest [] [] (package_item 0) (package_item 1) [] refl))
        (finish [] [] (package_item 0) refl) in
    let at_b =
      later
        (later (later a_done (receive (package_item 1) [] refl refl refl))
          (hand (package_item 1) refl (omega arith)))
        (start (package_item 1) [] refl (omega arith)) in
    later at_b (finish [] [] (package_item 1) refl)

later_run : Reach later_stage 1 parsed
unfolding submit has_text assignment_parse
later_run =
    let at_a =
      later
        (later (later (called (package_item 0) fresh) (receive (package_item 0) [] refl refl refl))
          (hand (package_item 0) refl (omega arith)))
        (start (package_item 0) [] refl (omega arith)) in
    let a_done =
      later (later at_a (nest [] [] (package_item 0) (package_item 1) [] refl))
        (finish [] [] (package_item 0) refl) in
    let at_b =
      later
        (later (later a_done (receive (package_item 1) [] refl refl refl))
          (hand (package_item 1) refl (omega arith)))
        (start (package_item 1) [] refl (omega arith)) in
    later at_b (finish [] [] (package_item 1) refl)

abbrev package_by : Bool → Package
package_by b = if b then package_a else package_b

packages-SameImports : SameImports packages
packages-SameImports h k c e m = same (h == 0) (k == 0) e m
  where
    same :
        (x y : Bool)
        → (package_by x).id ≡ (package_by y).id
        → In c (package_by x).imports
        → (d : ℕ) × In d (package_by y).imports × ((packages d).id ≡ (packages c).id)
    same true true e m = (c, m, refl)
    same true false e m = absurd (ground arith)
    same false y e m = absurd m

package_stage_lem_example :
    IsParsed packages parsed 1
    ⊎ ((j : ℕ) × Imported packages 0 j × IsMistaken packages files_of parsed j)
package_stage_lem_example =
    package_stage_lem packages opened no_failure 1 (λ file. true) parsed 0 1 packages-SameImports
      stage_run refl refl (inr (inl refl)) (by_import itself (inl refl))

assignment_stage_lem_example :
    IsParsed packages parsed 1
    ⊎ ((j : ℕ) × Imported packages 0 j
        × IsMistaken packages (λ pkg. pkg.compiled_go_files) parsed j)
assignment_stage_lem_example =
    assignment_stage_lem packages opened no_failure 1 parsed 0 1 packages-SameImports later_run refl
      refl (inr (inl refl)) (by_import itself (inl refl))
