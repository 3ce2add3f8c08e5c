-- ===== src/Parser/Files/Builtins.antt =====
-- pkg/parser/file_parser.go: the references to predeclared types. `builtin` is the position that
-- `builtin.Lookup` gives, invalid for a name it does not find.
pub mod Uses
pub mod Built
pub mod FirstUses
use askl_golang_indexer.Prelude.{
  ℕ, not, Option, none, some, List, [], ◌∷◌, ◌++◌, if◌then◌else◌, Text,
}
use askl_golang_indexer.Prelude.Texts.{bytes}
use askl_golang_indexer.Index.State.{ProtoIndex, Position}
use askl_golang_indexer.Index.References.{is_valid, add_reference}
use askl_golang_indexer.Index.Directories.{has_text}
use askl_golang_indexer.Parser.Types.{
  Ident, TypesObject, type_name, other_object, Expr, no_expr, ident, selector, star, array_type,
  map_type, chan_type, func_type, struct_type, interface_type, index_expr, index_list, paren,
  ellipsis, unary, binary, other_expr, Fields, no_fields, field, Exprs, no_exprs, more_exprs,
}

-- `seen`, and the index
pub record Builtins : Type 0 where
  pub seen : List Text
  pub index : ProtoIndex

module _ (uses : ℕ → Option TypesObject) (builtin : Text → Position) (fset : ℕ → Position)
    (file_id : ℕ) where
  abbrev pub refer_to : Ident → Text → ProtoIndex → ProtoIndex
  refer_to id name i =
      if not (is_valid (builtin name))
      then i
      else (add_reference file_id (builtin name) (bytes "builtin." ++ name) (fset id.pos)
          (fset id.end) none i).1

  unfoldable pub add_builtin_name : Ident → Text → Builtins → Builtins
  unfolding has_text add_reference
  add_builtin_name id name s =
      if has_text name s.seen
      then s
      else record { seen = name ∷ s.seen; index = refer_to id name s.index }

  abbrev pub add_builtin_type : Ident → Text → Option Text → Builtins → Builtins
  add_builtin_type id name none s = add_builtin_name id name s
  add_builtin_type id name (some path) s = s

  abbrev pub add_builtin : Ident → Option TypesObject → Builtins → Builtins
  add_builtin id none s = s
  add_builtin id (some other_object) s = s
  add_builtin id (some (type_name tn)) s = add_builtin_type id tn.name tn.pkg s

  -- The expressions that `addBuiltinTypeRefs` looks into.
  unfoldable mutual
    unfolding add_builtin_name

    pub builtin_walk : Expr → Builtins → Builtins
    builtin_walk no_expr s = s
    builtin_walk (ident id) s = add_builtin id (uses id.node) s
    builtin_walk (selector sel) s = s
    builtin_walk (star x) s = builtin_walk x s
    builtin_walk (array_type elt) s = builtin_walk elt s
    builtin_walk (map_type key value) s = builtin_walk value (builtin_walk key s)
    builtin_walk (chan_type value) s = builtin_walk value s
    builtin_walk (func_type params results) s = builtin_fields results (builtin_fields params s)
    builtin_walk (struct_type fields) s = builtin_fields fields s
    builtin_walk (interface_type methods) s = s
    builtin_walk (index_expr x index) s = s
    builtin_walk (index_list x indices) s = s
    builtin_walk (paren x) s = s
    builtin_walk (ellipsis elt) s = s
    builtin_walk (unary x) s = s
    builtin_walk (binary x y) s = s
    builtin_walk other_expr s = s

    pub builtin_fields : Fields → Builtins → Builtins
    builtin_fields no_fields s = s
    builtin_fields (field names type rest) s = builtin_fields rest (builtin_walk type s)

  unfoldable pub builtin_exprs : Exprs → Builtins → Builtins
  unfolding builtin_walk
  builtin_exprs no_exprs s = s
  builtin_exprs (more_exprs e rest) s = builtin_exprs rest (builtin_walk e s)

  unfoldable pub add_builtin_type_refs : Exprs → ProtoIndex → ProtoIndex
  unfolding builtin_exprs
  add_builtin_type_refs exprs i = (builtin_exprs exprs (record { seen = []; index = i })).index
