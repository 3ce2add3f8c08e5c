-- ===== src/Examples/Signatures.antt =====
-- pkg/parser/type_walker.go on the type map[T]*T.
use askl_golang_indexer.Prelude.{
  ℕ, ◌≡◌, refl, sym, true, false, ◌==◌, Option, none, some, [], ◌∷◌, arith, if◌then◌else◌, mem,
  Distinct, In, ◌∙◌,
}
use askl_golang_indexer.Prelude.Texts.{bytes}
use askl_golang_indexer.Parser.Types.{
  Ident, TypeName, TypesObject, type_name, Exprs, ident, star, map_type, no_exprs, more_exprs,
  TypeRef, extract_named_types,
}
use askl_golang_indexer.Parser.Types.Idents.{idents_of_all}
use askl_golang_indexer.Parser.Types.Fold.{Collectible, objects, UsedBy, Identified}
use askl_golang_indexer.Parser.Types.Collected.{extract_named_types_lem}

abbrev type_t : TypeName
type_t = record {
  object = 7;
  name = bytes "T";
  pos = 100;
  is_type_param = false;
  pkg = some (bytes "demo");
  is_package_level = true;
}

abbrev uses : ℕ → Option TypesObject
uses n = if n == 0 then none else some (type_name type_t)

abbrev use_at : ℕ → Ident
use_at n = record { node = n; name = bytes "T"; pos = n; end = n }

abbrev signature : Exprs
signature = more_exprs (map_type (ident (use_at 4)) (star (ident (use_at 7)))) no_exprs

-- The first use counts.
extracted :
    extract_named_types uses signature
    ≡ (record { type_name = type_t; use_pos = 4; use_end = 4 }) ∷ []
unfolding extract_named_types
extracted = refl

uses-Identified : Identified uses
uses-Identified m n a b u v e = sym (is_t m a u) ∙ is_t n b v
  where
    is_t : (m : ℕ) (a : TypeName) → uses m ≡ some (type_name a) → type_t ≡ a
    is_t m a u = ground arith

extract_named_types_lem_example :
    Distinct (objects (extract_named_types uses signature))
    × ((r : TypeRef)
        → In r (extract_named_types uses signature)
        → UsedBy uses (idents_of_all signature) r)
    × ((id : Ident) (tn : TypeName)
        → In id (idents_of_all signature)
        → uses id.node ≡ some (type_name tn)
        → Collectible tn
        → mem tn.object (objects (extract_named_types uses signature)) ≡ true)
extract_named_types_lem_example = extract_named_types_lem uses uses-Identified signature
