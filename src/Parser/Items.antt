-- ===== src/Parser/Items.antt =====
-- pkg/parser/package_parser.go and assignment_stage.go: what the items of the two stages submit when
-- they are parsed. `opened` is what `NewFileParser` or `NewAssignmentParser` returns for a file of a
-- package, none where it succeeds: a stage parses no package twice, so in every run this is a function.
pub mod Imports
use askl_golang_indexer.Prelude.{
  ℕ, zero, suc, Bool, not, ◌&&◌, ◌==◌, ltb, Option, none, some, List, [], ◌∷◌, ◌++◌, map,
  if◌then◌else◌, Text, length,
}
use askl_golang_indexer.Prelude.Texts.{bytes}
use askl_golang_indexer.Parser.Stage.{Parsable}
use askl_golang_indexer.Parser.Packages.{Package}

-- A `PackageParser` or `AssignmentStage`, by its package, or the parser of a file, by its package
-- and its place in the list of files.
pub data Item : Type 0 where
  package_item : ℕ → Item
  file_item : ℕ → ℕ → Item

-- The items that `Parse` submits, and the error it returns.
abbrev pub Submission : Type 0
Submission = List Item × Option Text

abbrev pub file_at : ℕ → List Text → Option Text
file_at n [] = none
file_at zero (file ∷ files) = some file
file_at (suc n) (file ∷ files) = file_at n files

-- `len(p.pkg.CompiledGoFiles) == 0 && len(p.pkg.GoFiles) > 0`
abbrev pub is_manual : Package → Bool
is_manual pkg = length pkg.compiled_go_files == 0 && ltb 0 (length pkg.go_files)

abbrev pub files_of : Package → List Text
files_of pkg = if is_manual pkg then pkg.go_files else pkg.compiled_go_files

-- `parseFile`: the parser of the file is submitted, or the error returned.
abbrev pub submit_opened : Option Text → ℕ → ℕ → Submission → Submission
submit_opened (some e) h n rest = ([], some e)
submit_opened none h n rest = (file_item h n ∷ rest.0, rest.1)

-- The imports follow, if there was no error.
abbrev pub with_imports : Submission → List ℕ → Submission
with_imports (items, some e) imports = (items, some e)
with_imports (items, none) imports = (items ++ map package_item imports, none)

module _ (packages : ℕ → Package) (opened : ℕ → Text → Option Text) where
  unfoldable pub submit_files : ℕ → ℕ → List Text → Submission
  submit_files h n [] = ([], none)
  submit_files h n (file ∷ files) = submit_opened (opened h file) h n (submit_files h (suc n) files)

  -- The loop over `CompiledGoFiles`, which needs as many syntax trees.
  unfoldable pub submit_compiled : ℕ → Submission
  unfolding submit_files
  submit_compiled h =
      let pkg = packages h in
      if not (length pkg.compiled_go_files == length pkg.syntax)
      then ([], some (bytes "not all files in a package have been parsed"))
      else submit_files h 0 pkg.compiled_go_files

  -- `AssignmentStage.Parse`
  unfoldable pub assignment_parse : ℕ → Submission
  unfolding submit_compiled
  assignment_parse h = with_imports (submit_compiled h) (packages h).imports

  module _ (parses : Text → Bool) where
    -- The loop over `GoFiles`; a file that go/parser does not parse is passed over.
    unfoldable pub submit_manual : ℕ → ℕ → List Text → Submission
    submit_manual h n [] = ([], none)
    submit_manual h n (file ∷ files) =
        let rest = submit_manual h (suc n) files in
        if parses file then submit_opened (opened h file) h n rest else rest

    -- `PackageParser.Parse`
    unfoldable pub package_parse : ℕ → Submission
    unfolding submit_manual submit_compiled
    package_parse h =
        with_imports
          (if is_manual (packages h)
            then submit_manual h 0 (packages h).go_files
            else submit_compiled h)
          (packages h).imports

-- `GetId` of the items
abbrev pub id_of_item : (ℕ → Package) → (Package → List Text) → Item → Option Text
id_of_item packages files (package_item h) = some (packages h).id
id_of_item packages files (file_item h n) = file_at n (files (packages h))

abbrev pub submits_of : (ℕ → Submission) → Item → List Item
submits_of parse (package_item h) = (parse h).0
submits_of parse (file_item h n) = []

-- `file_failure` is the error that parsing a file returns.
abbrev pub failure_of : (ℕ → Submission) → (ℕ → ℕ → Option Text) → Item → Option Text
failure_of parse file_failure (package_item h) = (parse h).1
failure_of parse file_failure (file_item h n) = file_failure h n

abbrev pub package_stage :
    (ℕ → Package) → (ℕ → Text → Option Text) → (Text → Bool) → (ℕ → ℕ → Option Text) → Parsable Item
package_stage packages opened parses file_failure = record {
  id_of = id_of_item packages files_of;
  submits = submits_of (package_parse packages opened parses);
  failure = failure_of (package_parse packages opened parses) file_failure;
}

abbrev pub assignment_stage :
    (ℕ → Package) → (ℕ → Text → Option Text) → (ℕ → ℕ → Option Text) → Parsable Item
assignment_stage packages opened file_failure = record {
  id_of = id_of_item packages (λ pkg. pkg.compiled_go_files);
  submits = submits_of (assignment_parse packages opened);
  failure = failure_of (assignment_parse packages opened) file_failure;
}
