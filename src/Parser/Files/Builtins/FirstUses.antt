-- ===== src/Parser/Files/Builtins/FirstUses.antt =====
-- pkg/parser/file_parser.go: which references `addBuiltinTypeRefs` makes.
use askl_golang_indexer.Prelude.{ℕ, ◌≡◌, refl, ◌∙◌, true, Option, none, some, List, [], ◌++◌, Text}
use askl_golang_indexer.Prelude.{In}
use askl_golang_indexer.Index.State.{ProtoIndex, Position}
use askl_golang_indexer.Index.Directories.{has_text}
use askl_golang_indexer.Indexing.Expand.{DistinctTexts}
use askl_golang_indexer.Parser.Types.{
  Ident, TypesObject, type_name, Expr, no_expr, ident, selector, star, array_type, map_type,
  chan_type, func_type, struct_type, interface_type, index_expr, index_list, paren, ellipsis, unary,
  binary, other_expr, Fields, no_fields, field, Exprs, no_exprs, more_exprs,
}
use askl_golang_indexer.Parser.Types.{TypeName}
use askl_golang_indexer.Parser.Packages.Deferred.{with_logs, with_logs_nil}
use askl_golang_indexer.Parser.Files.Builtins.Uses.{
  builtin_idents, builtin_idents_in, builtin_idents_of, FirstUse, names, IsFirstUse, logs_of_uses,
}
use askl_golang_indexer.Parser.Files.Builtins.Built.{IsBuilt, no_more, regroup, add_builtin-IsBuilt}
use askl_golang_indexer.Parser.Files.Builtins.{
  Builtins, builtin_walk, builtin_fields, builtin_exprs, add_builtin_type_refs,
}

module _ (uses : ℕ → Option TypesObject) (builtin : Text → Position) (fset : ℕ → Position)
    (file_id : ℕ) where
  abbrev Built : ProtoIndex → List Ident → Builtins → Type 0
  Built i ids s = IsBuilt uses builtin fset file_id i ids s

  mutual
    unfolding builtin_walk builtin_idents

    builtin_walk-IsBuilt :
        (i : ProtoIndex) (ids : List Ident) (e : Expr) (s : Builtins)
        → Built i ids s
        → Built i (ids ++ builtin_idents e) (builtin_walk uses builtin fset file_id e s)
    builtin_walk-IsBuilt i ids no_expr s v = no_more uses builtin fset file_id i ids s v
    builtin_walk-IsBuilt i ids (ident id) s v =
        add_builtin-IsBuilt uses builtin fset file_id i ids id (uses id.node) s refl v
    builtin_walk-IsBuilt i ids (selector sel) s v = no_more uses builtin fset file_id i ids s v
    builtin_walk-IsBuilt i ids (star x) s v = builtin_walk-IsBuilt i ids x s v
    builtin_walk-IsBuilt i ids (array_type elt) s v = builtin_walk-IsBuilt i ids elt s v
    builtin_walk-IsBuilt i ids (map_type key value) s v =
        regroup uses builtin fset file_id i ids (builtin_idents key) (builtin_idents value) _ (
          builtin_walk-IsBuilt i (ids ++ builtin_idents key) value
            (builtin_walk uses builtin fset file_id key s) (builtin_walk-IsBuilt i ids key s v))
    builtin_walk-IsBuilt i ids (chan_type value) s v = builtin_walk-IsBuilt i ids value s v
    builtin_walk-IsBuilt i ids (func_type params results) s v =
        regroup uses builtin fset file_id i ids (builtin_idents_in params)
          (builtin_idents_in results) _
          (builtin_fields-IsBuilt i (ids ++ builtin_idents_in params) results
            (builtin_fields uses builtin fset file_id params s)
            (builtin_fields-IsBuilt i ids params s v))
    builtin_walk-IsBuilt i ids (struct_type fields) s v = builtin_fields-IsBuilt i ids fields s v
    builtin_walk-IsBuilt i ids (interface_type methods) s v =
        no_more uses builtin fset file_id i ids s v
    builtin_walk-IsBuilt i ids (index_expr x index) s v =
        no_more uses builtin fset file_id i ids s v
    builtin_walk-IsBuilt i ids (index_list x indices) s v =
        no_more uses builtin fset file_id i ids s v
    builtin_walk-IsBuilt i ids (paren x) s v = no_more uses builtin fset file_id i ids s v
    builtin_walk-IsBuilt i ids (ellipsis elt) s v = no_more uses builtin fset file_id i ids s v
    builtin_walk-IsBuilt i ids (unary x) s v = no_more uses builtin fset file_id i ids s v
    builtin_walk-IsBuilt i ids (binary x y) s v = no_more uses builtin fset file_id i ids s v
    builtin_walk-IsBuilt i ids other_expr s v = no_more uses builtin fset file_id i ids s v

    builtin_fields-IsBuilt :
        (i : ProtoIndex) (ids : List Ident) (fields : Fields) (s : Builtins)
        → Built i ids s
        → Built i
            (ids ++ builtin_idents_in fields)
            (builtin_fields uses builtin fset file_id fields s)
    builtin_fields-IsBuilt i ids no_fields s v = no_more uses builtin fset file_id i ids s v
    builtin_fields-IsBuilt i ids (field names type rest) s v =
        regroup uses builtin fset file_id i ids (builtin_idents type) (builtin_idents_in rest) _ (
          builtin_fields-IsBuilt i (ids ++ builtin_idents type) rest
            (builtin_walk uses builtin fset file_id type s) (builtin_walk-IsBuilt i ids type s v))

  builtin_exprs-IsBuilt :
      (i : ProtoIndex) (ids : List Ident) (exprs : Exprs) (s : Builtins)
      → Built i ids s
      → Built i (ids ++ builtin_idents_of exprs) (builtin_exprs uses builtin fset file_id exprs s)
  unfolding builtin_exprs builtin_idents_of
  builtin_exprs-IsBuilt i ids no_exprs s v = no_more uses builtin fset file_id i ids s v
  builtin_exprs-IsBuilt i ids (more_exprs e rest) s v =
      regroup uses builtin fset file_id i ids (builtin_idents e) (builtin_idents_of rest) _ (
        builtin_exprs-IsBuilt i (ids ++ builtin_idents e) rest
          (builtin_walk uses builtin fset file_id e s) (builtin_walk-IsBuilt i ids e s v))

  -- The references to predeclared types are those of a list of first uses: no name twice; each one a
  -- predeclared type at the identifier that uses it first, from left to right, among those that the
  -- walk meets; and every such type that is used; as far as the builtin package has the type and
  -- `AddReference` accepts it. Nothing else of the index changes.
  pub add_builtin_type_refs_lem :
      (exprs : Exprs) (i : ProtoIndex)
      → (us : List FirstUse) × DistinctTexts (names us)
        × ((u : FirstUse) → In u us → IsFirstUse uses (builtin_idents_of exprs) u)
        × ((id : Ident) (tn : TypeName)
            → In id (builtin_idents_of exprs)
            → uses id.node ≡ some (type_name tn)
            → tn.pkg ≡ none
            → has_text tn.name (names us) ≡ true)
        × (add_builtin_type_refs uses builtin fset file_id exprs i
            ≡ with_logs i (logs_of_uses builtin fset file_id us))
  unfolding add_builtin_type_refs
  add_builtin_type_refs_lem exprs i =
      let v =
        builtin_exprs-IsBuilt i [] exprs (record { seen = []; index = i })
          (record {
            first_uses = [];
            same = λ t. refl;
            distinct = tt;
            used = λ u m. absurd m;
            all_used = λ id tn m e p. absurd m;
            logged = with_logs_nil i;
          }) in
      (
        v.first_uses,
        v.distinct,
        v.used,
        λ id tn m e p. v.same tn.name ∙ v.all_used id tn m e p,
        v.logged,
      )
