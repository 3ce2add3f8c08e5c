-- ===== src/Index/Decls.antt =====
-- pkg/index/symbols.go: SymbolDecl.Compare and the two matchers.
use askl_golang_indexer.Prelude.{
  ℕ, ltb, Bool, true, false, not, ◌&&◌, ◌||◌, ◌==◌, Option, none, some, [], ◌∷◌, if◌then◌else◌,
  Text, text_beq,
}
use askl_golang_indexer.Prelude.Int.{ℤ, pos, negsuc, ltb_ℤ, eqb_ℤ}
use askl_golang_indexer.Prelude.Texts.{has_suffix}
use askl_golang_indexer.Index.Kinds.{ScopeCode, TypeCode}
use askl_golang_indexer.Index.State.{Position}
use askl_golang_indexer.Index.Queries.{SymbolDecl, ReferenceNames, position_in}

abbrev pub position_beq : Position → Position → Bool
position_beq a b =
    text_beq a.filename b.filename
    && (eqb_ℤ a.offset b.offset && (eqb_ℤ a.line b.line && eqb_ℤ a.column b.column))

-- `token.Position{}`
abbrev pub zero_position : Position
zero_position = position_in [] (pos 0)

abbrev pub or_zero_position : Option Position → Position
or_zero_position none = zero_position
or_zero_position (some p) = p

unfoldable pub new_symbol :
    ℕ → ℕ → Text → ScopeCode → TypeCode → Option Position → Option Position → SymbolDecl
new_symbol module_id file_id name scope symbol_type start end = record {
  module_id = module_id;
  file_id = file_id;
  name = name;
  scope = scope;
  symbol_type = symbol_type;
  start = or_zero_position start;
  end = or_zero_position end;
}

-- `cmp.Compare`, whose results are -1, 0 and 1
abbrev pub compare_ℕ : ℕ → ℕ → ℤ
compare_ℕ a b = if ltb a b then negsuc 0 else if ltb b a then pos 1 else pos 0

abbrev pub compare_ℤ : ℤ → ℤ → ℤ
compare_ℤ a b = if ltb_ℤ a b then negsuc 0 else if ltb_ℤ b a then pos 1 else pos 0

-- `strings.Compare`: lexicographic by bytes
abbrev pub compare_text : Text → Text → ℤ
compare_text [] [] = pos 0
compare_text [] (y ∷ ys) = negsuc 0
compare_text (x ∷ xs) [] = pos 1
compare_text (x ∷ xs) (y ∷ ys) =
    let rest = compare_text xs ys in if ltb x y then negsuc 0 else if ltb y x then pos 1 else rest

unfoldable pub compare_decl : SymbolDecl → SymbolDecl → ℤ
compare_decl s other =
    if not (s.module_id == other.module_id)
    then compare_ℕ s.module_id other.module_id
    else if not (s.file_id == other.file_id)
    then compare_ℕ s.file_id other.file_id
    else if not (text_beq s.name other.name)
    then compare_text s.name other.name
    else if not (eqb_ℤ s.scope other.scope)
    then compare_ℤ s.scope other.scope
    else pos 0

-- `SymbolMatcher.Match` on a SymbolDecl
unfoldable pub match_symbol : SymbolDecl → SymbolDecl → Bool
match_symbol expected s =
    if not (has_suffix s.name expected.name && eqb_ℤ s.scope expected.scope)
    then false
    else if position_beq expected.start zero_position && position_beq expected.end zero_position
    then true
    else position_beq s.start expected.start && position_beq s.end expected.end

-- `ReferenceMatcher.Match` on a *ReferenceNames
unfoldable pub match_reference : ReferenceNames → ReferenceNames → Bool
match_reference expected r =
    if not (has_suffix r.from expected.from) || not (has_suffix r.to expected.to)
    then false
    else true
