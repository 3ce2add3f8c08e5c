-- ===== src/Index/Kinds.antt =====
-- pkg/index/index.go, the integer kinds of the index, and pkg/index/proto_index.go, their
-- translation to the enums of the messages.
use askl_golang_indexer.Prelude.{List, [], ◌∷◌, if◌then◌else◌, Text}
use askl_golang_indexer.Prelude.Int.{ℤ, pos, eqb_ℤ}
use askl_golang_indexer.Prelude.Texts.{bytes}
use askl_golang_indexer.Proto.{
  SymbolScope, symbol_scope_unspecified, local, global, SymbolType, symbol_type_unspecified,
  function, file, module_type, directory, type, data_type, macro, field, InstanceType,
  instance_type_unspecified, definition, declaration, expansion, sentinel, containment, source,
  header, build, inst_file, documentation,
}

-- `type SymbolScope int`, `type SymbolType int`, `type InstanceType int`
abbrev pub ScopeCode : Type 0
ScopeCode = ℤ

abbrev pub TypeCode : Type 0
TypeCode = ℤ

abbrev pub InstanceCode : Type 0
InstanceCode = ℤ

abbrev pub scope_local : ScopeCode
scope_local = pos 1

abbrev pub scope_global : ScopeCode
scope_global = pos 2

abbrev pub type_function : TypeCode
type_function = pos 1

abbrev pub type_file : TypeCode
type_file = pos 2

abbrev pub type_module : TypeCode
type_module = pos 3

abbrev pub type_directory : TypeCode
type_directory = pos 4

abbrev pub type_type : TypeCode
type_type = pos 5

abbrev pub type_data : TypeCode
type_data = pos 6

abbrev pub type_macro : TypeCode
type_macro = pos 7

abbrev pub type_field : TypeCode
type_field = pos 8

abbrev pub instance_definition : InstanceCode
instance_definition = pos 1

abbrev pub instance_declaration : InstanceCode
instance_declaration = pos 2

abbrev pub instance_expansion : InstanceCode
instance_expansion = pos 3

abbrev pub instance_sentinel : InstanceCode
instance_sentinel = pos 4

abbrev pub instance_containment : InstanceCode
instance_containment = pos 5

abbrev pub instance_source : InstanceCode
instance_source = pos 6

abbrev pub instance_header : InstanceCode
instance_header = pos 7

abbrev pub instance_build : InstanceCode
instance_build = pos 8

abbrev pub instance_file : InstanceCode
instance_file = pos 9

abbrev pub instance_documentation : InstanceCode
instance_documentation = pos 10

-- A Go switch over integer constants: its cases, then its default.
abbrev pub switch {ℓ} : {A : Type ℓ} → ℤ → List (ℤ × A) → A → A
switch k [] default_value = default_value
switch k ((c, v) ∷ cases) default_value = if eqb_ℤ k c then v else switch k cases default_value

unfoldable pub scope_string : ScopeCode → Text
scope_string s =
    switch s ((scope_global, bytes "global") ∷ (scope_local, bytes "local") ∷ []) (bytes "unknown")

unfoldable pub type_string : TypeCode → Text
type_string t =
    switch t
      ((type_function, bytes "function")
        ∷ (type_file, bytes "file")
        ∷ (type_module, bytes "module")
        ∷ (type_directory, bytes "directory")
        ∷ (type_type, bytes "type")
        ∷ (type_data, bytes "data")
        ∷ (type_macro, bytes "macro")
        ∷ (type_field, bytes "field")
        ∷ [])
      (bytes "unknown")

unfoldable pub to_proto_scope : ScopeCode → SymbolScope
to_proto_scope s =
    switch s ((scope_local, local) ∷ (scope_global, global) ∷ []) symbol_scope_unspecified

unfoldable pub from_proto_scope : SymbolScope → ScopeCode
from_proto_scope local = scope_local
from_proto_scope global = scope_global
from_proto_scope _ = pos 0

unfoldable pub to_proto_type : TypeCode → SymbolType
to_proto_type t =
    switch t
      ((type_function, function)
        ∷ (type_file, file)
        ∷ (type_module, module_type)
        ∷ (type_directory, directory)
        ∷ (type_type, type)
        ∷ (type_data, data_type)
        ∷ (type_field, field)
        ∷ (type_macro, macro)
        ∷ [])
      symbol_type_unspecified

unfoldable pub to_proto_instance_type : InstanceCode → InstanceType
to_proto_instance_type k =
    switch k
      ((instance_definition, definition)
        ∷ (instance_declaration, declaration)
        ∷ (instance_expansion, expansion)
        ∷ (instance_sentinel, sentinel)
        ∷ (instance_containment, containment)
        ∷ (instance_source, source)
        ∷ (instance_header, header)
        ∷ (instance_build, build)
        ∷ (instance_file, inst_file)
        ∷ (instance_documentation, documentation)
        ∷ [])
      instance_type_unspecified
