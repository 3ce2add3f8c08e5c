-- ===== src/Proto.antt =====
-- The messages of proto/index.proto (pkg/indexpb/index.pb.go) that the index builds. An int64
-- identifier is a number; an int32 offset is a signed integer; the numbers that the DFS numbering
-- writes (dfs_enter, dfs_exit as int64; nesting_level, fold_depth as int32) are bit patterns.
use askl_golang_indexer.Prelude.{ℕ, Bool, false, Option, none, List, Text}
use askl_golang_indexer.Prelude.Int.{ℤ, pos}

pub data SymbolScope : Type 0 where
  symbol_scope_unspecified local global : SymbolScope

pub data SymbolType : Type 0 where
  symbol_type_unspecified function file module_type directory type data_type macro field :
      SymbolType

pub data InstanceType : Type 0 where
  instance_type_unspecified definition declaration expansion sentinel containment : InstanceType
  source header build inst_file documentation : InstanceType

pub record Span : Type 0 where
  pub start : ℤ
  pub end : ℤ

pub record Symbol : Type 0 where
  pub local_id : ℕ
  pub name : Text
  pub scope : SymbolScope
  pub type : SymbolType

pub record SymbolInstance : Type 0 where
  pub symbol_local_id : ℕ
  pub instance_type : InstanceType
  pub start_offset : ℤ
  pub end_offset : ℤ
  pub nesting_level : ℕ
  pub dfs_enter : ℕ
  pub dfs_exit : ℕ
  pub folded : Bool
  pub fold_depth : ℕ
  pub name : Option Span
  pub signature : Option Span
  pub content : Option Span

pub record SymbolRef : Type 0 where
  pub to_symbol_local_id : ℕ
  pub from_offset_start : ℤ
  pub from_offset_end : ℤ
  pub full : Option Span
  pub nesting_level : ℕ
  pub dfs_enter : ℕ
  pub folded : Bool
  pub fold_depth : ℕ

pub record Object : Type 0 where
  pub local_id : ℕ
  pub module_path : Text
  pub filesystem_path : Text
  pub filetype : Text
  pub content : List ℕ
  pub symbol_instances : List SymbolInstance
  pub refs : List SymbolRef

pub record Project : Type 0 where
  pub project_name : Text
  pub root_path : Text
  pub objects : List Object
  pub symbols : List Symbol

-- `&indexpb.SymbolInstance{SymbolLocalId: …, InstanceType: …, StartOffset: …, EndOffset: …}`
abbrev pub new_instance : ℕ → InstanceType → ℤ → ℤ → SymbolInstance
new_instance id kind start end = record {
  symbol_local_id = id;
  instance_type = kind;
  start_offset = start;
  end_offset = end;
  nesting_level = 0;
  dfs_enter = 0;
  dfs_exit = 0;
  folded = false;
  fold_depth = 0;
  name = none;
  signature = none;
  content = none;
}

-- `&indexpb.SymbolRef{ToSymbolLocalId: …, FromOffsetStart: …, FromOffsetEnd: …, Full: …}`
abbrev pub new_ref : ℕ → ℤ → ℤ → Option Span → SymbolRef
new_ref id start end full = record {
  to_symbol_local_id = id;
  from_offset_start = start;
  from_offset_end = end;
  full = full;
  nesting_level = 0;
  dfs_enter = 0;
  folded = false;
  fold_depth = 0;
}

-- What a read out of range would give. Go panics there; the indices below never leave their slice.
abbrev pub no_instance : SymbolInstance
no_instance = new_instance 0 instance_type_unspecified (pos 0) (pos 0)

abbrev pub no_ref : SymbolRef
no_ref = new_ref 0 (pos 0) (pos 0) none
