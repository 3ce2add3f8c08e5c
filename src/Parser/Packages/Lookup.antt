-- ===== src/Parser/Packages/Lookup.antt =====
-- pkg/parser/parser.go and package_parser.go: what the lookups of positions return.
use askl_golang_indexer.Prelude.{
  ℕ, ◌≡◌, refl, subst, Bool, true, false, ◌==◌, Option, none, some, List, [], ◌∷◌, if◌then◌else◌,
  arith, Text, text_beq,
}
use askl_golang_indexer.Index.State.{Position}
use askl_golang_indexer.Index.References.{is_valid}
use askl_golang_indexer.Parser.Packages.{
  Decl, func_decl, other_decl, Package, Object, valid_or, find_func, find_in_files,
  lookup_func_position, lookup_position, package_by_path, position_from, position_by_pkg,
  position_for_object,
}

-- Where there is a position, it is valid.
abbrev pub IsValidIfAny : Option Position → Type 0
IsValidIfAny o = (p : Position) → o ≡ some p → is_valid p ≡ true

valid_or-IsValidIfAny :
    (p : Position) (rest : Option Position) → IsValidIfAny rest → IsValidIfAny (valid_or p rest)
valid_or-IsValidIfAny p rest v = at_test (is_valid p) refl
  where
    same : {q : Position} → ◌≡◌ {A = Option Position} (some p) (some q) → p ≡ q
    same e = ground arith

    at_test : (b : Bool) → is_valid p ≡ b → IsValidIfAny (if b then some p else rest)
    at_test true t q e = subst (λ r. is_valid r ≡ true) (same e) t
    at_test false t q e = v q e

if-IsValidIfAny :
    (b : Bool) (x y : Option Position)
    → IsValidIfAny x
    → IsValidIfAny y
    → IsValidIfAny (if b then x else y)
if-IsValidIfAny true x y v w = v
if-IsValidIfAny false x y v w = w

find_func-IsValidIfAny :
    (plain : Bool) (fset : ℕ → Position) (name : Text) (decls : List Decl) (rest : Option Position)
    → IsValidIfAny rest
    → IsValidIfAny (find_func plain fset name decls rest)
unfolding find_func
find_func-IsValidIfAny plain fset name [] rest v = v
find_func-IsValidIfAny plain fset name (other_decl ∷ decls) rest v =
    find_func-IsValidIfAny plain fset name decls rest v
find_func-IsValidIfAny plain fset name (func_decl recv none ∷ decls) rest v =
    find_func-IsValidIfAny plain fset name decls rest v
find_func-IsValidIfAny plain fset name (func_decl recv (some id) ∷ decls) rest v =
    let later = find_func-IsValidIfAny plain fset name decls rest v in
    if-IsValidIfAny (if plain then recv else false) _ _ later (
      if-IsValidIfAny (text_beq id.name name) _ _ (valid_or-IsValidIfAny (fset id.pos) _ later)
        later)

find_in_files-IsValidIfAny :
    (plain : Bool) (fset : ℕ → Position) (name : Text) (files : List (List Decl))
    (rest : Option Position)
    → IsValidIfAny rest
    → IsValidIfAny (find_in_files plain fset name files rest)
unfolding find_in_files
find_in_files-IsValidIfAny plain fset name [] rest v = v
find_in_files-IsValidIfAny plain fset name (file ∷ files) rest v =
    find_func-IsValidIfAny plain fset name file _
      (find_in_files-IsValidIfAny plain fset name files rest v)

nowhere : IsValidIfAny none
nowhere p e = absurd (ground arith)

lookup_position-IsValidIfAny :
    (pkgs : List Package) (name : Text) → IsValidIfAny (lookup_position pkgs name)
unfolding lookup_position
lookup_position-IsValidIfAny [] name = nowhere
lookup_position-IsValidIfAny (pkg ∷ pkgs) name =
    find_in_files-IsValidIfAny true pkg.fset name pkg.syntax _
      (lookup_position-IsValidIfAny pkgs name)

position_from-IsValidIfAny :
    (o : Option Package) (obj : Object) → IsValidIfAny (position_from o obj)
position_from-IsValidIfAny none obj = nowhere
position_from-IsValidIfAny (some pkg) obj =
    let by_name : IsValidIfAny (lookup_func_position pkg obj.name) =
      unfold lookup_func_position in
      find_in_files-IsValidIfAny false pkg.fset obj.name pkg.syntax none nowhere in
    if-IsValidIfAny (obj.pos == 0) _ _ by_name (valid_or-IsValidIfAny (pkg.fset obj.pos) _ by_name)

position_by_pkg-IsValidIfAny :
    (pkgs builtins : List Package) (o : Option Text) (obj : Object)
    → IsValidIfAny (position_by_pkg pkgs builtins o obj)
position_by_pkg-IsValidIfAny pkgs builtins none obj = lookup_position-IsValidIfAny builtins obj.name
position_by_pkg-IsValidIfAny pkgs builtins (some path) obj =
    position_from-IsValidIfAny (package_by_path pkgs builtins path) obj

-- Whatever the object and the packages are, a position that `positionForObject` returns is valid.
pub position_for_object-IsValid :
    (pkgs builtins : List Package) (obj : Option Object) (p : Position)
    → position_for_object pkgs builtins obj ≡ some p
    → is_valid p ≡ true
unfolding position_for_object
position_for_object-IsValid pkgs builtins none p e = nowhere p e
position_for_object-IsValid pkgs builtins (some obj) p e =
    position_by_pkg-IsValidIfAny pkgs builtins obj.pkg obj p e
