-- ===== src/Parser/Packages.antt =====
-- pkg/parser/parser.go and package_parser.go: the packages that are loaded, what is looked up in
-- them, and the references that wait for the end of the first stage. A package is known by its
-- pointer, a number; `none` is nil.
pub mod Deferred
pub mod Dedup
pub mod Lookup
use askl_golang_indexer.Prelude.{
  ℕ, ◌+◌, Bool, true, false, ◌==◌, Option, none, some, List, [], ◌∷◌, ◌++◌, if◌then◌else◌, Text,
  text_beq, length, ◌&&◌, Result, ok, and_then,
}
use askl_golang_indexer.Prelude.Texts.{bytes}
use askl_golang_indexer.Index.State.{ProtoIndex, Position}
use askl_golang_indexer.Index.Files.{Outcome, done, failed, find_file_id}
use askl_golang_indexer.Index.References.{is_valid, add_reference}
use askl_golang_indexer.Index.Directories.{has_text}
use askl_golang_indexer.Index.Kinds.{ScopeCode, scope_global, scope_local}
use askl_golang_indexer.Parser.Types.{Ident, TypeName}

-- An `ast.Decl`, as far as the lookups of functions look.
pub data Decl : Type 0 where
  func_decl : (has_recv : Bool) (name : Option Ident) → Decl
  other_decl : Decl

-- A `packages.Package`. `fset` is `Fset.Position`, `types_path` the path of `Types`, or none where
-- that is nil, and `syntax` has the declarations of each file.
pub record Package : Type 0 where
  pub id : Text
  pub pkg_path : Text
  pub compiled_go_files : List Text
  pub go_files : List Text
  pub syntax : List (List Decl)
  pub imports : List ℕ
  pub types_path : Option Text
  pub fset : ℕ → Position

-- The key of a package: its ID or, without one, its path.
abbrev pub key_or : Text → Text → Text
key_or [] path = path
key_or (c ∷ id) path = c ∷ id

-- `seen` and `out`
pub record Keyed : Type 0 where
  pub seen : List Text
  pub out : List ℕ

unfoldable pub add_keyed : Text → ℕ → Keyed → Keyed
unfolding has_text
add_keyed [] h u = u
add_keyed (c ∷ key) h u =
    if has_text (c ∷ key) u.seen
    then u
    else record { seen = (c ∷ key) ∷ u.seen; out = u.out ++ h ∷ [] }

module _ (packages : ℕ → Package) where
  abbrev pub package_key : ℕ → Text
  package_key h = key_or (packages h).id (packages h).pkg_path

  abbrev pub add_package : Option ℕ → Keyed → Keyed
  add_package none u = u
  add_package (some h) u = add_keyed (package_key h) h u

  unfoldable pub unique_loop : List (Option ℕ) → Keyed → Keyed
  unfolding add_keyed
  unique_loop [] u = u
  unique_loop (pkg ∷ pkgs) u = unique_loop pkgs (add_package pkg u)

  unfoldable pub unique_packages : List (Option ℕ) → List ℕ
  unfolding unique_loop
  unique_packages pkgs = (unique_loop pkgs (record { seen = []; out = [] })).out

-- `obj.Name()`, `obj.Pkg()` and `obj.Pos()` of a `types.Object`; the position 0 is `token.NoPos`.
pub record Object : Type 0 where
  pub name : Text
  pub pkg : Option Text
  pub pos : ℕ

abbrev pub valid_or : Position → Option Position → Option Position
valid_or p rest = if is_valid p then some p else rest

-- The loops of `lookupFuncPosition`; with `plain` those of `LookupPosition`, which passes over
-- methods.
unfoldable pub find_func :
    Bool → (ℕ → Position) → Text → List Decl → Option Position → Option Position
find_func plain fset name [] rest = rest
find_func plain fset name (other_decl ∷ decls) rest = find_func plain fset name decls rest
find_func plain fset name (func_decl recv none ∷ decls) rest = find_func plain fset name decls rest
find_func plain fset name (func_decl recv (some id) ∷ decls) rest =
    let later = find_func plain fset name decls rest in
    if (if plain then recv else false)
    then later
    else if text_beq id.name name
    then valid_or (fset id.pos) later
    else later

unfoldable pub find_in_files :
    Bool → (ℕ → Position) → Text → List (List Decl) → Option Position → Option Position
unfolding find_func
find_in_files plain fset name [] rest = rest
find_in_files plain fset name (file ∷ files) rest =
    find_func plain fset name file (find_in_files plain fset name files rest)

unfoldable pub lookup_func_position : Package → Text → Option Position
unfolding find_in_files
lookup_func_position pkg name = find_in_files false pkg.fset name pkg.syntax none

unfoldable pub lookup_position : List Package → Text → Option Position
unfolding find_in_files
lookup_position [] name = none
lookup_position (pkg ∷ pkgs) name =
    find_in_files true pkg.fset name pkg.syntax (lookup_position pkgs name)

abbrev pub has_path : Text → Option Text → Bool
has_path path none = false
has_path path (some types_path) = text_beq types_path path

unfoldable pub first_with_path : Text → List Package → Option Package
first_with_path path [] = none
first_with_path path (pkg ∷ pkgs) =
    if has_path path pkg.types_path then some pkg else first_with_path path pkgs

-- The packages of the module and the builtin ones, in that order.
unfoldable pub package_by_path : List Package → List Package → Text → Option Package
unfolding first_with_path
package_by_path pkgs builtins path = first_with_path path (pkgs ++ builtins)

abbrev pub position_from : Option Package → Object → Option Position
position_from none obj = none
position_from (some pkg) obj =
    let by_name = lookup_func_position pkg obj.name in
    if obj.pos == 0 then by_name else valid_or (pkg.fset obj.pos) by_name

abbrev pub position_by_pkg : List Package → List Package → Option Text → Object → Option Position
position_by_pkg pkgs builtins none obj = lookup_position builtins obj.name
position_by_pkg pkgs builtins (some path) obj =
    position_from (package_by_path pkgs builtins path) obj

-- `positionForObject`, with nil as none
unfoldable pub position_for_object : List Package → List Package → Option Object → Option Position
unfolding lookup_func_position lookup_position package_by_path
position_for_object pkgs builtins none = none
position_for_object pkgs builtins (some obj) = position_by_pkg pkgs builtins obj.pkg obj

-- `GetSymbolScope`: `first_rune` is the first character, 0 for an empty name; unicode is a parameter.
unfoldable pub get_symbol_scope : (Text → ℕ) → (ℕ → Bool) → (ℕ → Bool) → Text → ScopeCode
get_symbol_scope first_rune is_upper is_letter name =
    if is_upper (first_rune name) && is_letter (first_rune name) then scope_global else scope_local

-- `builtinPkgs.Lookup`, with `Types.Scope().Lookup` as a parameter: an object and its position.
abbrev pub positioned :
    Package → Option Object → Option (Object × Position) → Option (Object × Position)
positioned pkg none rest = rest
positioned pkg (some obj) rest = some (obj, pkg.fset obj.pos)

unfoldable pub builtin_lookup :
    (Package → Text → Option Object) → List Package → Text → Option (Object × Position)
builtin_lookup scope_lookup [] name = none
builtin_lookup scope_lookup (pkg ∷ pkgs) name =
    positioned pkg (scope_lookup pkg name) (builtin_lookup scope_lookup pkgs name)

-- `builtinPkgs.Apply` on a state: the first error ends it.
unfoldable pub apply_to_each : {S : Type 0} → (ℕ → S → Result Text S) → List ℕ → S → Result Text S
apply_to_each f [] s = ok s
apply_to_each f (pkg ∷ pkgs) s = and_then (f pkg s) (apply_to_each f pkgs)

pub record MethodReceiverRef : Type 0 where
  pub type_name : TypeName
  pub method_full_name : Text
  pub method_pos : Position
  pub fset : ℕ → Position

pub record DeferredTypeRef : Type 0 where
  pub from_file_id : ℕ
  pub type_name : TypeName
  pub use_start : Position
  pub use_end : Position
  pub fset : ℕ → Position

-- What waits in the parser, and its index.
pub record Postponed : Type 0 where
  pub receiver_refs : List MethodReceiverRef
  pub type_refs : List DeferredTypeRef
  pub index : ProtoIndex

abbrev pub add_receiver_ref : MethodReceiverRef → Postponed → Postponed
add_receiver_ref ref p = record p { receiver_refs = p.receiver_refs ++ ref ∷ [] }

abbrev pub add_deferred_type_ref : DeferredTypeRef → Postponed → Postponed
add_deferred_type_ref ref p = record p { type_refs = p.type_refs ++ ref ∷ [] }

-- `typeFullName`; none is the panic of a type with no package.
abbrev pub named_in : Option Text → Text → Option Text
named_in none name = none
named_in (some path) name = some (path ++ (bytes "." ++ name))

abbrev pub type_full_name : TypeName → Option Text
type_full_name tn = named_in tn.pkg tn.name

abbrev pub or_panic : {A B : Type 0} → Option A → (A → Option B) → Option B
or_panic none f = none
or_panic (some a) f = f a

abbrev pub receiver_at : Outcome ℕ → MethodReceiverRef → ProtoIndex → Option ProtoIndex
receiver_at (failed e) ref i = some i
receiver_at (done type_file_id) ref i =
    let tn = ref.type_name in
    or_panic (type_full_name tn) (λ _.
      some
        (add_reference type_file_id ref.method_pos ref.method_full_name (ref.fset tn.pos)
          (ref.fset (tn.pos + length tn.name)) none i).1)

unfoldable pub resolve_receivers : List MethodReceiverRef → ProtoIndex → Option ProtoIndex
unfolding find_file_id add_reference
resolve_receivers [] i = some i
resolve_receivers (ref ∷ refs) i =
    or_panic (receiver_at (find_file_id (ref.fset ref.type_name.pos).filename i) ref i)
      (resolve_receivers refs)

abbrev pub type_ref_at : Outcome ℕ → DeferredTypeRef → ProtoIndex → Option ProtoIndex
type_ref_at (failed e) ref i = some i
type_ref_at (done _) ref i = or_panic (type_full_name ref.type_name) (λ full_name.
    some
      (add_reference ref.from_file_id (ref.fset ref.type_name.pos) full_name ref.use_start
        ref.use_end none i).1)

unfoldable pub resolve_type_refs : List DeferredTypeRef → ProtoIndex → Option ProtoIndex
unfolding find_file_id add_reference
resolve_type_refs [] i = some i
resolve_type_refs (ref ∷ refs) i =
    or_panic (type_ref_at (find_file_id (ref.fset ref.type_name.pos).filename i) ref i)
      (resolve_type_refs refs)

-- `resolveDeferredRefs`
unfoldable pub resolve_deferred_refs : Postponed → Option Postponed
unfolding resolve_receivers resolve_type_refs
resolve_deferred_refs p = or_panic (resolve_receivers p.receiver_refs p.index) (λ i.
    or_panic (resolve_type_refs p.type_refs i)
      (λ j. some (record { receiver_refs = []; type_refs = []; index = j })))
