-- ===== src/Parser/Files/Builtins/Uses.antt =====
-- pkg/parser/file_parser.go: the first uses of predeclared types, and the references they make.
use mathlib.Core.List.{append_assoc}
use askl_golang_indexer.Prelude.{
  ℕ, ◌≡◌, refl, ◌∙◌, ap, sym, Bool, true, false, not, Option, none, some, List, [], ◌∷◌, ◌++◌, map,
  if◌then◌else◌, Text,
}
use askl_golang_indexer.Prelude.{In}
use askl_golang_indexer.Prelude.Texts.{bytes}
use askl_golang_indexer.Index.State.{ProtoIndex, Position, ReferenceLog}
use askl_golang_indexer.Index.References.{is_valid, add_reference}
use askl_golang_indexer.Parser.Types.{
  Ident, TypesObject, type_name, Expr, no_expr, ident, selector, star, array_type, map_type,
  chan_type, func_type, struct_type, interface_type, index_expr, index_list, paren, ellipsis, unary,
  binary, other_expr, Fields, no_fields, field, Exprs, no_exprs, more_exprs,
}
use askl_golang_indexer.Parser.Types.{TypeName}
use askl_golang_indexer.Parser.Packages.Deferred.{
  accepted, with_logs, with_logs_nil, add_reference-accepted,
}
use askl_golang_indexer.Parser.Files.Builtins.{refer_to}

-- The identifiers that the walk asks about, from left to right.
unfoldable mutual
  pub builtin_idents : Expr → List Ident
  builtin_idents no_expr = []
  builtin_idents (ident id) = id ∷ []
  builtin_idents (selector sel) = []
  builtin_idents (star x) = builtin_idents x
  builtin_idents (array_type elt) = builtin_idents elt
  builtin_idents (map_type key value) = builtin_idents key ++ builtin_idents value
  builtin_idents (chan_type value) = builtin_idents value
  builtin_idents (func_type params results) = builtin_idents_in params ++ builtin_idents_in results
  builtin_idents (struct_type fields) = builtin_idents_in fields
  builtin_idents (interface_type methods) = []
  builtin_idents (index_expr x index) = []
  builtin_idents (index_list x indices) = []
  builtin_idents (paren x) = []
  builtin_idents (ellipsis elt) = []
  builtin_idents (unary x) = []
  builtin_idents (binary x y) = []
  builtin_idents other_expr = []

  pub builtin_idents_in : Fields → List Ident
  builtin_idents_in no_fields = []
  builtin_idents_in (field names type rest) = builtin_idents type ++ builtin_idents_in rest

unfoldable pub builtin_idents_of : Exprs → List Ident
unfolding builtin_idents
builtin_idents_of no_exprs = []
builtin_idents_of (more_exprs e rest) = builtin_idents e ++ builtin_idents_of rest

-- A name, with the identifier that used it first.
abbrev pub FirstUse : Type 0
FirstUse = Text × Ident

abbrev pub names : List FirstUse → List Text
names us = map (λ (u : FirstUse). u.0) us

pub names-append : (us vs : List FirstUse) → names (us ++ vs) ≡ names us ++ names vs
names-append [] vs = refl
names-append (u ∷ us) vs = ap (λ l. u.0 ∷ l) (names-append us vs)

module _ (uses : ℕ → Option TypesObject) where
  -- The use is that of a predeclared type, and no identifier before it uses a type of that name.
  abbrev pub IsFirstUse : List Ident → FirstUse → Type 0
  IsFirstUse ids u =
      (tn : TypeName) × (before : List Ident) × (after : List Ident) × (ids ≡ before ++ u.1 ∷ after)
      × (uses u.1.node ≡ some (type_name tn))
      × (tn.name ≡ u.0)
      × (tn.pkg ≡ none)
      × ((id : Ident) (other : TypeName)
          → In id before
          → uses id.node ≡ some (type_name other)
          → other.pkg ≡ none
          → other.name ≡ u.0
          → ⊥)

  pub IsFirstUse-more :
      (ids more : List Ident) (u : FirstUse) → IsFirstUse ids u → IsFirstUse (ids ++ more) u
  IsFirstUse-more ids more u (tn, before, after, split, e, n, p, first) = (
    tn,
    before,
    after ++ more,
    ap (λ l. l ++ more) split ∙ append_assoc before (u.1 ∷ after) more,
    e,
    n,
    p,
    first,
  )

module _ (builtin : Text → Position) (fset : ℕ → Position) (file_id : ℕ) where
  abbrev pub log_of_use : FirstUse → List ReferenceLog
  log_of_use (name, id) =
      if not (is_valid (builtin name))
      then []
      else accepted (record {
        from_file = file_id;
        to = builtin name;
        to_name = bytes "builtin." ++ name;
        start = fset id.pos;
        end = fset id.end;
        full = none;
      })

  abbrev pub logs_of_uses : List FirstUse → List ReferenceLog
  logs_of_uses [] = []
  logs_of_uses (u ∷ us) = log_of_use u ++ logs_of_uses us

  pub logs_of_uses-append :
      (us vs : List FirstUse) → logs_of_uses (us ++ vs) ≡ logs_of_uses us ++ logs_of_uses vs
  logs_of_uses-append [] vs = refl
  logs_of_uses-append (u ∷ us) vs =
      ap (λ l. log_of_use u ++ l) (logs_of_uses-append us vs)
      ∙ sym (append_assoc (log_of_use u) (logs_of_uses us) (logs_of_uses vs))

  pub refer_to-logs :
      (uses : ℕ → Option TypesObject) (id : Ident) (name : Text) (i : ProtoIndex)
      → refer_to uses builtin fset file_id id name i ≡ with_logs i (log_of_use (name, id))
  refer_to-logs uses id name i = at_test (is_valid (builtin name))
    where
      made : List ReferenceLog
      made = accepted (record {
        from_file = file_id;
        to = builtin name;
        to_name = bytes "builtin." ++ name;
        start = fset id.pos;
        end = fset id.end;
        full = none;
      })

      at_test :
          (b : Bool)
          → (if not b
              then i
              else (add_reference file_id
                  (builtin name)
                  (bytes "builtin." ++ name)
                  (fset id.pos)
                  (fset id.end)
                  none
                  i).1)
            ≡ with_logs i (if not b then [] else made)
      at_test true =
          add_reference-accepted file_id (builtin name) (bytes "builtin." ++ name) (fset id.pos)
            (fset id.end) none i
      at_test false = with_logs_nil i
