-- ===== src/Index/Filetype.antt =====
-- pkg/index/filetype.go. `filepath.Ext` with `strings.ToLower`, `http.DetectContentType` and
-- `strings.TrimSpace` are library code, so they are parameters.
use Prim.Native.String.{String}
use askl_golang_indexer.Prelude.{
  ℕ, zero, suc, Bool, false, ◌||◌, Option, none, some, List, [], ◌∷◌, if◌then◌else◌, Text, text_beq,
  Map, lookup, text_eq, length, ltb, ◌==◌,
}
use askl_golang_indexer.Prelude.Texts.{bytes}
use askl_golang_indexer.Index.Kinds.{
  InstanceCode, instance_source, instance_header, instance_build, instance_file,
}

unfoldable pub one_of : Text → List String → Bool
one_of t [] = false
one_of t (s ∷ texts) = text_beq t (bytes s) || one_of t texts

unfoldable pub filetype_to_instance_type : Text → InstanceCode
unfolding one_of
filetype_to_instance_type filetype =
    if text_beq filetype (bytes "text/x-c-header")
    then instance_header
    else if text_beq filetype (bytes "text/x-makefile")
    then instance_build
    else if one_of filetype (
        "text/x-go" ∷ "text/x-python" ∷ "text/x-ruby" ∷ "text/x-shellscript" ∷ "text/x-c"
        ∷ "text/javascript" ∷ "text/css" ∷ "text/html" ∷ [])
    then instance_source
    else instance_file

abbrev pub extension_filetypes : Map Text Text
extension_filetypes =
    (bytes ".bash", bytes "text/x-shellscript")
    ∷ (bytes ".css", bytes "text/css")
    ∷ (bytes ".go", bytes "text/x-go")
    ∷ (bytes ".html", bytes "text/html")
    ∷ (bytes ".js", bytes "text/javascript")
    ∷ (bytes ".json", bytes "application/json")
    ∷ (bytes ".md", bytes "text/markdown")
    ∷ (bytes ".mod", bytes "text/plain")
    ∷ (bytes ".proto", bytes "text/plain")
    ∷ (bytes ".py", bytes "text/x-python")
    ∷ (bytes ".rb", bytes "text/x-ruby")
    ∷ (bytes ".sh", bytes "text/x-shellscript")
    ∷ (bytes ".sql", bytes "text/plain")
    ∷ (bytes ".sum", bytes "text/plain")
    ∷ (bytes ".toml", bytes "text/plain")
    ∷ (bytes ".ts", bytes "text/plain")
    ∷ (bytes ".txt", bytes "text/plain")
    ∷ (bytes ".yaml", bytes "application/x-yaml")
    ∷ (bytes ".yml", bytes "application/x-yaml")
    ∷ (bytes ".zsh", bytes "text/x-shellscript")
    ∷ []

abbrev pub take : ℕ → Text → Text
take zero s = []
take (suc n) [] = []
take (suc n) (c ∷ s) = c ∷ take n s

-- `strings.Cut(s, ";")`: what precedes the first `;`
abbrev pub cut_semicolon : Text → Option Text
cut_semicolon [] = none
cut_semicolon (c ∷ s) =
    let rest = cut_semicolon s in
    if c == 59 then some [] else (elim rest [ none ↦ none | some base ↦ some (c ∷ base) ])

module _ (lower_ext : Text → Text) (detect_content_type : List ℕ → Text)
    (trim_space : Text → Text) where
  unfoldable pub sniffed : List ℕ → Text
  sniffed content =
      let filetype =
        detect_content_type (if ltb 512 (length content) then take 512 content else content) in
      if text_beq filetype []
      then bytes "unknown"
      else (elim (cut_semicolon filetype) [ none ↦ filetype | some base ↦ trim_space base ])

  -- An empty extension is no key of the table.
  unfoldable pub guess_file_type : Text → List ℕ → Text
  unfolding sniffed
  guess_file_type path content = elim (lookup (lower_ext path) extension_filetypes) [
    | some filetype ↦ filetype
    | none ↦ if length content == 0 then bytes "unknown" else sniffed content
  ]
