-- ===== src/Parser/Types/Idents.antt =====
-- pkg/parser/type_walker.go: the walk adds the identifiers of an expression from left to right.
use askl_golang_indexer.Prelude.{ℕ, ◌≡◌, refl, ◌∙◌, ap, sym, Option, List, [], ◌∷◌, ◌++◌}
use askl_golang_indexer.Parser.Types.{
  Ident, TypesObject, Expr, no_expr, ident, selector, star, array_type, map_type, chan_type,
  func_type, struct_type, interface_type, index_expr, index_list, paren, ellipsis, unary, binary,
  other_expr, Fields, no_fields, field, Exprs, no_exprs, more_exprs, Collection, try_add, walk,
  walk_fields, walk_embedded, walk_exprs,
}

-- The identifiers that the walk asks about, from left to right.
unfoldable mutual
  pub idents_of : Expr → List Ident
  idents_of no_expr = []
  idents_of (ident id) = id ∷ []
  idents_of (selector sel) = sel ∷ []
  idents_of (star x) = idents_of x
  idents_of (array_type elt) = idents_of elt
  idents_of (map_type key value) = idents_of key ++ idents_of value
  idents_of (chan_type value) = idents_of value
  idents_of (func_type params results) = idents_in params ++ idents_in results
  idents_of (struct_type fields) = idents_in fields
  idents_of (interface_type methods) = idents_embedded methods
  idents_of (index_expr x index) = idents_of x ++ idents_of index
  idents_of (index_list x indices) = idents_of x ++ idents_of_all indices
  idents_of (paren x) = idents_of x
  idents_of (ellipsis elt) = idents_of elt
  idents_of (unary x) = idents_of x
  idents_of (binary x y) = idents_of x ++ idents_of y
  idents_of other_expr = []

  pub idents_in : Fields → List Ident
  idents_in no_fields = []
  idents_in (field names type rest) = idents_of type ++ idents_in rest

  pub idents_embedded : Fields → List Ident
  idents_embedded no_fields = []
  idents_embedded (field [] type rest) = idents_of type ++ idents_embedded rest
  idents_embedded (field (name ∷ names) type rest) = idents_embedded rest

  pub idents_of_all : Exprs → List Ident
  idents_of_all no_exprs = []
  idents_of_all (more_exprs e rest) = idents_of e ++ idents_of_all rest

module _ (uses : ℕ → Option TypesObject) where
  abbrev pub add_all : List Ident → Collection → Collection
  add_all [] s = s
  add_all (id ∷ ids) s = add_all ids (try_add uses id s)

  add_all-append :
      (xs ys : List Ident) (s : Collection) → add_all (xs ++ ys) s ≡ add_all ys (add_all xs s)
  add_all-append [] ys s = refl
  add_all-append (x ∷ xs) ys s = add_all-append xs ys (try_add uses x s)

  -- Two parts, one after the other.
  both :
      (xs ys : List Ident) (f g : Collection → Collection) (s : Collection)
      → ((t : Collection) → f t ≡ add_all xs t)
      → ((t : Collection) → g t ≡ add_all ys t)
      → g (f s) ≡ add_all (xs ++ ys) s
  both xs ys f g s h k = k (f s) ∙ ap (add_all ys) (h s) ∙ sym (add_all-append xs ys s)

  mutual
    unfolding walk idents_of

    walk-eq-add_all : (e : Expr) (s : Collection) → walk uses e s ≡ add_all (idents_of e) s
    walk-eq-add_all no_expr s = refl
    walk-eq-add_all (ident id) s = refl
    walk-eq-add_all (selector sel) s = refl
    walk-eq-add_all (star x) s = walk-eq-add_all x s
    walk-eq-add_all (array_type elt) s = walk-eq-add_all elt s
    walk-eq-add_all (map_type key value) s =
        both (idents_of key) (idents_of value) (walk uses key) (walk uses value) s
          (walk-eq-add_all key) (walk-eq-add_all value)
    walk-eq-add_all (chan_type value) s = walk-eq-add_all value s
    walk-eq-add_all (func_type params results) s =
        both (idents_in params) (idents_in results) (walk_fields uses params)
          (walk_fields uses results) s (walk_fields-eq-add_all params)
          (walk_fields-eq-add_all results)
    walk-eq-add_all (struct_type fields) s = walk_fields-eq-add_all fields s
    walk-eq-add_all (interface_type methods) s = walk_embedded-eq-add_all methods s
    walk-eq-add_all (index_expr x index) s =
        both (idents_of x) (idents_of index) (walk uses x) (walk uses index) s (walk-eq-add_all x)
          (walk-eq-add_all index)
    walk-eq-add_all (index_list x indices) s =
        both (idents_of x) (idents_of_all indices) (walk uses x) (walk_exprs uses indices) s
          (walk-eq-add_all x) (walk_exprs-eq-add_all indices)
    walk-eq-add_all (paren x) s = walk-eq-add_all x s
    walk-eq-add_all (ellipsis elt) s = walk-eq-add_all elt s
    walk-eq-add_all (unary x) s = walk-eq-add_all x s
    walk-eq-add_all (binary x y) s =
        both (idents_of x) (idents_of y) (walk uses x) (walk uses y) s (walk-eq-add_all x)
          (walk-eq-add_all y)
    walk-eq-add_all other_expr s = refl

    walk_fields-eq-add_all :
        (fields : Fields) (s : Collection)
        → walk_fields uses fields s ≡ add_all (idents_in fields) s
    walk_fields-eq-add_all no_fields s = refl
    walk_fields-eq-add_all (field names type rest) s =
        both (idents_of type) (idents_in rest) (walk uses type) (walk_fields uses rest) s
          (walk-eq-add_all type) (walk_fields-eq-add_all rest)

    walk_embedded-eq-add_all :
        (fields : Fields) (s : Collection)
        → walk_embedded uses fields s ≡ add_all (idents_embedded fields) s
    walk_embedded-eq-add_all no_fields s = refl
    walk_embedded-eq-add_all (field [] type rest) s =
        both (idents_of type) (idents_embedded rest) (walk uses type) (walk_embedded uses rest) s
          (walk-eq-add_all type) (walk_embedded-eq-add_all rest)
    walk_embedded-eq-add_all (field (name ∷ names) type rest) s = walk_embedded-eq-add_all rest s

    pub walk_exprs-eq-add_all :
        (exprs : Exprs) (s : Collection) → walk_exprs uses exprs s ≡ add_all (idents_of_all exprs) s
    walk_exprs-eq-add_all no_exprs s = refl
    walk_exprs-eq-add_all (more_exprs e rest) s =
        both (idents_of e) (idents_of_all rest) (walk uses e) (walk_exprs uses rest) s
          (walk-eq-add_all e) (walk_exprs-eq-add_all rest)
