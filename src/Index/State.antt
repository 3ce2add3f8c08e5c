-- ===== src/Index/State.antt =====
-- pkg/index/proto_index.go, the state of `ProtoIndex`, and the types of pkg/index/index.go that its
-- operations take. The objects live in `project.objects`; a pointer to one is its position there.
-- The mutex is not modelled: every operation holds it from start to end.
use askl_golang_indexer.Prelude.{
  ℕ, Bool, true, false, ◌&&◌, ◌≡◌, ◌↔◌, Option, List, [], Text, text_beq, text_beq_iff, ◌==◌, Map,
  Eq, arith,
}
use askl_golang_indexer.Prelude.Int.{ℤ, eqb_ℤ}
use askl_golang_indexer.Proto.{Symbol, Project}
use askl_golang_indexer.ObjectTree.{InstanceSlot}
use askl_golang_indexer.Index.Kinds.{ScopeCode, TypeCode}

-- `token.Position` of go/token
pub record Position : Type 0 where
  pub filename : Text
  pub offset : ℤ
  pub line : ℤ
  pub column : ℤ

-- `Span` and `Spans` of the index, with int offsets
pub record ByteSpan : Type 0 where
  pub start : ℤ
  pub end : ℤ

pub record Spans : Type 0 where
  pub name : Option ByteSpan
  pub signature : Option ByteSpan
  pub content : Option ByteSpan

-- `NoParent`
abbrev pub no_parent : ℕ
no_parent = 0

pub record SymbolKey : Type 0 where
  pub name : Text
  pub scope : ScopeCode

pub record FileNameKey : Type 0 where
  pub file_path : Text
  pub name : Text

pub record InstanceKey : Type 0 where
  pub symbol_id : ℕ
  pub file_id : ℕ
  pub start : ℤ
  pub end : ℤ

pub record InstanceLookupKey : Type 0 where
  pub name : Text
  pub scope : ScopeCode
  pub symbol_type : TypeCode

pub record InstanceEntry : Type 0 where
  pub symbol_id : ℕ
  pub file_id : ℕ
  pub symbol_type : TypeCode
  pub start : ℤ
  pub end : ℤ
  pub instance_id : ℕ

pub record ReferenceLog : Type 0 where
  pub from_file : ℕ
  pub to : Position
  pub to_name : Text
  pub start : Position
  pub end : Position
  pub full : Option ByteSpan

pub record ModuleImportLog : Type 0 where
  pub from_module_id : ℕ
  pub to_module_name : Text
  pub from_file_id : ℕ
  pub start_offset : ℤ
  pub end_offset : ℤ

-- `symbol_id` is 0 until the module's symbol is created.
pub record ModuleInfo : Type 0 where
  pub name : Text
  pub symbol_id : ℕ
  pub file_ids : List ℕ

pub record RefDedupKey : Type 0 where
  pub to_symbol_id : ℕ
  pub from_file : ℕ
  pub start : ℤ
  pub end : ℤ

-- Equality of the keys, field by field.
abbrev pub symbol_key_beq : SymbolKey → SymbolKey → Bool
symbol_key_beq a b = text_beq a.name b.name && eqb_ℤ a.scope b.scope

abbrev pub file_name_key_beq : FileNameKey → FileNameKey → Bool
file_name_key_beq a b = text_beq a.file_path b.file_path && text_beq a.name b.name

abbrev pub instance_key_beq : InstanceKey → InstanceKey → Bool
instance_key_beq a b =
    a.symbol_id == b.symbol_id
    && (a.file_id == b.file_id && (eqb_ℤ a.start b.start && eqb_ℤ a.end b.end))

abbrev pub lookup_key_beq : InstanceLookupKey → InstanceLookupKey → Bool
lookup_key_beq a b =
    text_beq a.name b.name && (eqb_ℤ a.scope b.scope && eqb_ℤ a.symbol_type b.symbol_type)

abbrev pub dedup_key_beq : RefDedupKey → RefDedupKey → Bool
dedup_key_beq a b =
    a.to_symbol_id == b.to_symbol_id
    && (a.from_file == b.from_file && (eqb_ℤ a.start b.start && eqb_ℤ a.end b.end))

pub symbol_key_beq_iff : (a b : SymbolKey) → (symbol_key_beq a b ≡ true) ↔ (a ≡ b)
symbol_key_beq_iff a b = ground (arith, text_beq_iff a.name b.name)

pub file_name_key_beq_iff : (a b : FileNameKey) → (file_name_key_beq a b ≡ true) ↔ (a ≡ b)
file_name_key_beq_iff a b =
    ground (arith, text_beq_iff a.file_path b.file_path, text_beq_iff a.name b.name)

pub instance_key_beq_iff : (a b : InstanceKey) → (instance_key_beq a b ≡ true) ↔ (a ≡ b)
instance_key_beq_iff a b = ground arith

pub lookup_key_beq_iff : (a b : InstanceLookupKey) → (lookup_key_beq a b ≡ true) ↔ (a ≡ b)
lookup_key_beq_iff a b = ground (arith, text_beq_iff a.name b.name)

pub dedup_key_beq_iff : (a b : RefDedupKey) → (dedup_key_beq a b ≡ true) ↔ (a ≡ b)
dedup_key_beq_iff a b = ground arith

instance abbrev pub symbol_key_eq : Eq SymbolKey
symbol_key_eq = record { beq = symbol_key_beq; beq_iff = symbol_key_beq_iff }

instance abbrev pub file_name_key_eq : Eq FileNameKey
file_name_key_eq = record { beq = file_name_key_beq; beq_iff = file_name_key_beq_iff }

instance abbrev pub instance_key_eq : Eq InstanceKey
instance_key_eq = record { beq = instance_key_beq; beq_iff = instance_key_beq_iff }

instance abbrev pub lookup_key_eq : Eq InstanceLookupKey
lookup_key_eq = record { beq = lookup_key_beq; beq_iff = lookup_key_beq_iff }

instance abbrev pub dedup_key_eq : Eq RefDedupKey
dedup_key_eq = record { beq = dedup_key_beq; beq_iff = dedup_key_beq_iff }

pub record ProtoIndex : Type 0 where
  pub project_name : Text
  pub root_path : Text
  pub project : Project
  pub next_module_id : ℕ
  pub next_file_id : ℕ
  pub next_symbol_id : ℕ
  pub next_instance_id : ℕ
  pub modules_by_name : Map Text ℕ
  pub module_by_id : Map ℕ ModuleInfo
  pub file_by_id : Map ℕ ℕ
  pub file_path_by_id : Map ℕ Text
  pub file_id_by_path : Map Text ℕ
  pub file_hash_by_path : Map Text Text
  pub file_module_id : Map ℕ ℕ
  pub file_symbol_by_object_id : Map ℕ ℕ
  pub symbol_by_key : Map SymbolKey ℕ
  pub symbol_by_id : Map ℕ Symbol
  pub symbol_name_by_id : Map ℕ Text
  pub symbol_by_file_and_name : Map FileNameKey ℕ
  pub instance_id_by_key : Map InstanceKey ℕ
  pub instances_by_file : Map ℕ (List InstanceEntry)
  pub instances_by_lookup : Map InstanceLookupKey (List ℕ)
  pub references_log : List ReferenceLog
  pub module_imports_log : List ModuleImportLog
  pub directory_symbols_created : Bool
  pub slot_by_instance : Map ℕ InstanceSlot
  pub stated_parent : Map InstanceSlot ℕ

-- `NewProtoIndex`, with the options applied: the project's name and its root path
abbrev pub new_proto_index : Text → Text → ProtoIndex
new_proto_index name root = record {
  project_name = name;
  root_path = root;
  project = record { project_name = name; root_path = root; objects = []; symbols = [] };
  next_module_id = 1;
  next_file_id = 1;
  next_symbol_id = 1;
  next_instance_id = 1;
  modules_by_name = [];
  module_by_id = [];
  file_by_id = [];
  file_path_by_id = [];
  file_id_by_path = [];
  file_hash_by_path = [];
  file_module_id = [];
  file_symbol_by_object_id = [];
  symbol_by_key = [];
  symbol_by_id = [];
  symbol_name_by_id = [];
  symbol_by_file_and_name = [];
  instance_id_by_key = [];
  instances_by_file = [];
  instances_by_lookup = [];
  references_log = [];
  module_imports_log = [];
  directory_symbols_created = false;
  slot_by_instance = [];
  stated_parent = [];
}
