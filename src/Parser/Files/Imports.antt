-- ===== src/Parser/Files/Imports.antt =====
-- pkg/parser/file_parser.go: the import declarations of a file.
use mathlib.Core.List.{append-nil, append_assoc}
use askl_golang_indexer.Prelude.{
  ℕ, ◌≡◌, refl, ◌∙◌, ap, sym, true, Option, none, some, List, [], ◌∷◌, ◌++◌, map, Text,
}
use askl_golang_indexer.Index.State.{ProtoIndex, Position, ModuleImportLog}
use askl_golang_indexer.Index.Files.{add_module_import}
use askl_golang_indexer.Parser.Files.{
  ImportSpec, last_is_quote, without_last, unquote, add_import, parse_imports,
}

last_is_quote_closed : (t : Text) → last_is_quote (t ++ b'"' ∷ []) ≡ true
unfolding last_is_quote
last_is_quote_closed [] = refl
last_is_quote_closed (c ∷ []) = refl
last_is_quote_closed (c ∷ d ∷ t) = last_is_quote_closed (d ∷ t)

without_last-append : (t : Text) (q : ℕ) → without_last (t ++ q ∷ []) ≡ t
unfolding without_last
without_last-append [] q = refl
without_last-append (c ∷ []) q = refl
without_last-append (c ∷ d ∷ t) q = ap (λ s. c ∷ s) (without_last-append (d ∷ t) q)

-- A path between quotes.
abbrev pub quote : Text → Text
quote path = b'"' ∷ (path ++ b'"' ∷ [])

pub unquote-quote : (path : Text) → unquote (quote path) ≡ path
unfolding unquote
unquote-quote [] = refl
unquote-quote (c ∷ path) =
    rw (last_is_quote_closed (c ∷ path)) (without_last-append (c ∷ path) b'"')

-- A path between backquotes: a raw string literal.
abbrev pub raw_quote : Text → Text
raw_quote path = b'`' ∷ (path ++ b'`' ∷ [])

-- A raw string keeps its backquotes.
pub unquote-raw_quote : (path : Text) → unquote (raw_quote path) ≡ raw_quote path
unfolding unquote
unquote-raw_quote [] = refl
unquote-raw_quote (c ∷ path) = refl

-- The path of an `ast.ImportSpec`: nil, an interpreted string literal or a raw one, by what is
-- between the quotes.
pub data ImportPath : Type 0 where
  nil_path : ImportPath
  quoted raw : Text → ImportPath

abbrev pub literal : ImportPath → Option Text
literal nil_path = none
literal (quoted path) = some (quote path)
literal (raw path) = some (raw_quote path)

-- An import: its path, and where it stands.
abbrev pub Import : Type 0
Import = ImportPath × (ℕ × ℕ)

abbrev pub spec_of : Import → ImportSpec
spec_of (path, (from, to)) = record { path = literal path; pos = from; end = to }

module _ (fset : ℕ → Position) (m file_id : ℕ) where
  abbrev pub log_named : Text → ℕ → ℕ → ModuleImportLog
  log_named name from to = record {
    from_module_id = m;
    to_module_name = name;
    from_file_id = file_id;
    start_offset = (fset from).offset;
    end_offset = (fset to).offset;
  }

  abbrev pub log_of : Import → List ModuleImportLog
  log_of (nil_path, (from, to)) = []
  log_of (quoted path, (from, to)) = log_named path from to ∷ []
  log_of (raw path, (from, to)) = log_named (raw_quote path) from to ∷ []

  abbrev pub logs_of : List Import → List ModuleImportLog
  logs_of [] = []
  logs_of (i ∷ imports) = log_of i ++ logs_of imports

  abbrev pub with_imports_of : List ModuleImportLog → ProtoIndex → ProtoIndex
  with_imports_of logs i = record i { module_imports_log = i.module_imports_log ++ logs }

  with_imports_of-append :
      (a b : List ModuleImportLog) (i : ProtoIndex)
      → with_imports_of b (with_imports_of a i) ≡ with_imports_of (a ++ b) i
  with_imports_of-append a b i =
      ap (λ log. record i { module_imports_log = log }) (append_assoc i.module_imports_log a b)

  nothing_logged : (i : ProtoIndex) → i ≡ with_imports_of [] i
  nothing_logged i =
      ap (λ log. record i { module_imports_log = log }) (sym (append-nil i.module_imports_log))

  one_import :
      (spec : Import) (i : ProtoIndex)
      → add_import fset m file_id (spec_of spec) (spec_of spec).path i
        ≡ with_imports_of (log_of spec) i
  unfolding add_module_import
  one_import (nil_path, (from, to)) i = nothing_logged i
  one_import (quoted path, (from, to)) i =
      ap (λ name. with_imports_of (log_named name from to ∷ []) i) (unquote-quote path)
  one_import (raw path, (from, to)) i =
      ap (λ name. with_imports_of (log_named name from to ∷ []) i) (unquote-raw_quote path)

  -- The imports of a file are logged in their order, each with where it stands: an interpreted
  -- string literal with the path between its quotes, a raw one with its backquotes still on, and one
  -- with no path not at all. No other field of the index changes.
  pub parse_imports_lem :
      (imports : List Import) (i : ProtoIndex)
      → parse_imports fset m file_id (map spec_of imports) i ≡ with_imports_of (logs_of imports) i
  unfolding parse_imports
  parse_imports_lem [] i = nothing_logged i
  parse_imports_lem (spec ∷ imports) i =
      ap (parse_imports fset m file_id (map spec_of imports)) (one_import spec i)
      ∙ parse_imports_lem imports (with_imports_of (log_of spec) i)
      ∙ with_imports_of-append (log_of spec) (logs_of imports) i
