-- ===== src/Parser/Types.antt =====
-- pkg/parser/type_walker.go: the named types that type expressions use. What go/types knows of an
-- identifier is a parameter, `uses`.
pub mod Idents
pub mod Fold
pub mod Collected
use askl_golang_indexer.Prelude.{
  ℕ, Bool, true, false, Option, none, some, List, [], ◌∷◌, ◌++◌, if◌then◌else◌, Text, mem,
}

-- An `*ast.Ident`: its node, by which `TypesInfo` is asked, and where it stands.
pub record Ident : Type 0 where
  pub node : ℕ
  pub name : Text
  pub pos : ℕ
  pub end : ℕ

-- A `*types.TypeName`, with its identity, its package or nil, and whether its parent is the scope
-- of that package.
pub record TypeName : Type 0 where
  pub object : ℕ
  pub name : Text
  pub pos : ℕ
  pub is_type_param : Bool
  pub pkg : Option Text
  pub is_package_level : Bool

-- A `types.Object`, as far as the walk asks.
pub data TypesObject : Type 0 where
  type_name : TypeName → TypesObject
  other_object : TypesObject

-- An `ast.Expr`, with the parts that the walk looks at; `no_expr` is nil. A list of fields that is
-- nil is empty.
mutual
  pub data Expr : Type 0 where
    no_expr : Expr
    ident : Ident → Expr
    selector : (sel : Ident) → Expr
    star : Expr → Expr
    array_type : (elt : Expr) → Expr
    map_type : (key value : Expr) → Expr
    chan_type : (value : Expr) → Expr
    func_type : (params results : Fields) → Expr
    struct_type : Fields → Expr
    interface_type : (methods : Fields) → Expr
    index_expr : (x index : Expr) → Expr
    index_list : (x : Expr) (indices : Exprs) → Expr
    paren : Expr → Expr
    ellipsis : (elt : Expr) → Expr
    unary : Expr → Expr
    binary : (x y : Expr) → Expr
    other_expr : Expr

  pub data Fields : Type 0 where
    no_fields : Fields
    field : (names : List Ident) (type : Expr) → Fields → Fields

  pub data Exprs : Type 0 where
    no_exprs : Exprs
    more_exprs : Expr → Exprs → Exprs

pub record TypeRef : Type 0 where
  pub type_name : TypeName
  pub use_pos : ℕ
  pub use_end : ℕ

-- `seen` and `refs`
pub record Collection : Type 0 where
  pub seen : List ℕ
  pub refs : List TypeRef

-- What is appended for a type that is seen for the first time: nothing for a predeclared type or
-- one that is local to a function.
abbrev pub new_refs : Ident → TypeName → Option Text → Bool → List TypeRef
new_refs id tn none level = []
new_refs id tn (some path) false = []
new_refs id tn (some path) true =
    (record { type_name = tn; use_pos = id.pos; use_end = id.end }) ∷ []

module _ (uses : ℕ → Option TypesObject) where
  unfoldable pub add_type_name : Ident → TypeName → Collection → Collection
  add_type_name id tn s =
      if tn.is_type_param then s else if mem tn.object s.seen then s else record {
        seen = tn.object ∷ s.seen;
        refs = s.refs ++ new_refs id tn tn.pkg tn.is_package_level;
      }

  -- `tryAdd`, by what the identifier resolves to
  unfoldable pub add_object : Ident → Option TypesObject → Collection → Collection
  unfolding add_type_name
  add_object id none s = s
  add_object id (some other_object) s = s
  add_object id (some (type_name tn)) s = add_type_name id tn s

  abbrev pub try_add : Ident → Collection → Collection
  try_add id s = add_object id (uses id.node) s

  unfoldable mutual
    unfolding add_object

    pub walk : Expr → Collection → Collection
    walk no_expr s = s
    walk (ident id) s = try_add id s
    walk (selector sel) s = try_add sel s
    walk (star x) s = walk x s
    walk (array_type elt) s = walk elt s
    walk (map_type key value) s = walk value (walk key s)
    walk (chan_type value) s = walk value s
    walk (func_type params results) s = walk_fields results (walk_fields params s)
    walk (struct_type fields) s = walk_fields fields s
    walk (interface_type methods) s = walk_embedded methods s
    walk (index_expr x index) s = walk index (walk x s)
    walk (index_list x indices) s = walk_exprs indices (walk x s)
    walk (paren x) s = walk x s
    walk (ellipsis elt) s = walk elt s
    walk (unary x) s = walk x s
    walk (binary x y) s = walk y (walk x s)
    walk other_expr s = s

    pub walk_fields : Fields → Collection → Collection
    walk_fields no_fields s = s
    walk_fields (field names type rest) s = walk_fields rest (walk type s)

    -- the fields of an interface: only those with no name
    pub walk_embedded : Fields → Collection → Collection
    walk_embedded no_fields s = s
    walk_embedded (field [] type rest) s = walk_embedded rest (walk type s)
    walk_embedded (field (name ∷ names) type rest) s = walk_embedded rest s

    pub walk_exprs : Exprs → Collection → Collection
    walk_exprs no_exprs s = s
    walk_exprs (more_exprs e rest) s = walk_exprs rest (walk e s)

  unfoldable pub extract_named_types : Exprs → List TypeRef
  unfolding walk
  extract_named_types exprs = (walk_exprs exprs (record { seen = []; refs = [] })).refs
