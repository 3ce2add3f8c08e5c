-- ===== src/Index/Symbols.antt =====
-- pkg/index/proto_index.go: AddSymbol with its checks, the symbol, the clamped extent, the instance
-- and its spans.
use askl_golang_indexer.Prelude.{
  ℕ, suc, Bool, not, ◌&&◌, ◌||◌, ltb, ◌==◌, Option, none, some, List, [], ◌∷◌, ◌++◌, if◌then◌else◌,
  Text, lookup, insert, text_eq, nat_eq, length,
}
use askl_golang_indexer.Prelude.Int.{ℤ, pos, ltb_ℤ, leb_ℤ, eqb_ℤ, max_int32, to_int32}
use askl_golang_indexer.Proto.{SymbolInstance, Object, Span, new_instance}
use askl_golang_indexer.ObjectTree.{InstanceSlot, slot_eq}
use askl_golang_indexer.Index.Kinds.{
  ScopeCode, TypeCode, InstanceCode, to_proto_scope, to_proto_type, to_proto_instance_type,
}
use askl_golang_indexer.Index.State.{
  ProtoIndex, ByteSpan, Spans, no_parent, SymbolKey, InstanceLookupKey, InstanceKey, InstanceEntry,
  symbol_key_eq, file_name_key_eq, instance_key_eq, lookup_key_eq,
}
use askl_golang_indexer.Index.Files.{
  Outcome, done, failed, module_not_found, file_not_found, type_not_set, start_out_of_range,
  end_out_of_range, file_of, append_symbol, append_instance, modify_object,
}

-- `x > math.MaxInt32 || x < 0`
abbrev pub out_of_range : ℤ → Bool
out_of_range x = ltb_ℤ (pos max_int32) x || ltb_ℤ x (pos 0)

unfoldable pub offsets_fit_int32 : ℤ → ℤ → Bool
offsets_fit_int32 start end =
    leb_ℤ (pos 0) start
    && (leb_ℤ (pos 0) end && (leb_ℤ start (pos max_int32) && leb_ℤ end (pos max_int32)))

unfoldable pub proto_span : Option ByteSpan → ℤ → ℤ → Option Span
unfolding offsets_fit_int32
proto_span none start end = none
proto_span (some span) start end =
    if not (offsets_fit_int32 span.start span.end)
    then none
    else if ltb_ℤ span.end span.start
    then none
    else if ltb_ℤ span.start start || ltb_ℤ end span.end
    then none
    else some (record { start = to_int32 span.start; end = to_int32 span.end })

-- The arguments of one call.
pub record NewSymbol : Type 0 where
  pub module_id : ℕ
  pub file_id : ℕ
  pub name : Text
  pub scope : ScopeCode
  pub symbol_type : TypeCode
  pub instance_type : InstanceCode
  pub start : ℤ
  pub end : ℤ
  pub spans : Spans
  pub parent : ℕ

-- The checks before any write, in order; a file is its position and the object.
unfoldable pub check_symbol : NewSymbol → ProtoIndex → Outcome (ℕ × Object)
check_symbol s i = elim (lookup s.module_id i.module_by_id) [
  | none ↦ failed module_not_found
  | some info ↦ (elim (file_of i s.file_id) [
    | none ↦ failed file_not_found
    | some file ↦
        if eqb_ℤ s.symbol_type (pos 0)
        then failed type_not_set
        else if out_of_range s.start
        then failed start_out_of_range
        else if out_of_range s.end
        then failed end_out_of_range
        else done file
  ])
]

abbrev pub symbol_key : NewSymbol → SymbolKey
symbol_key s = record { name = s.name; scope = s.scope }

-- The symbol that is there, or a new one under the next identifier.
unfoldable pub symbol_or_new : NewSymbol → Option ℕ → ProtoIndex → ℕ × ProtoIndex
unfolding to_proto_scope to_proto_type
symbol_or_new s (some id) i = (id, i)
symbol_or_new s none i =
    let id = i.next_symbol_id in
    let j =
      append_symbol
        (record {
          local_id = id;
          name = s.name;
          scope = to_proto_scope s.scope;
          type = to_proto_type s.symbol_type;
        })
        i in
    (id, record j { symbol_by_key = insert (symbol_key s) id j.symbol_by_key })

-- `symbolID, ok := i.symbolByKey[symKey]`
unfoldable pub symbol_for : NewSymbol → ProtoIndex → ℕ × ProtoIndex
unfolding symbol_or_new
symbol_for s i = symbol_or_new s (lookup (symbol_key s) i.symbol_by_key) i

-- `if filePath != "" { i.symbolByFileAndName[…] = symbolID }`
unfoldable pub name_at : NewSymbol → ℕ → Option Text → ProtoIndex → ProtoIndex
name_at s symbol_id none i = i
name_at s symbol_id (some []) i = i
name_at s symbol_id (some (c ∷ path)) i = record i {
  symbol_by_file_and_name =
      insert (record { file_path = c ∷ path; name = s.name }) symbol_id i.symbol_by_file_and_name;
}

unfoldable pub name_in_file : NewSymbol → ℕ → ProtoIndex → ProtoIndex
unfolding name_at
name_in_file s symbol_id i = name_at s symbol_id (lookup s.file_id i.file_path_by_id) i

-- The extent, cut off at the end of the object.
abbrev pub clamp : NewSymbol → ℕ → NewSymbol
clamp s limit =
    if ltb_ℤ (pos limit) s.end
    then record s {
      start = if ltb_ℤ (pos limit) s.start then pos limit else s.start;
      end = pos limit;
    }
    else s

-- The condition under which a stated parent is taken, with its position.
unfoldable pub accepted_parent : ProtoIndex → ℕ → InstanceSlot → Option ℕ
accepted_parent i parent slot =
    if parent == no_parent then none else elim (lookup parent i.slot_by_instance) [
      | none ↦ none
      | some p ↦ if p.object == slot.object && ltb p.idx slot.idx then some p.idx else none
    ]

abbrev pub state_parent : InstanceSlot → Option ℕ → ProtoIndex → ProtoIndex
state_parent slot none i = i
state_parent slot (some p) i = record i { stated_parent = insert slot p i.stated_parent }

unfoldable pub instance_of : NewSymbol → ℕ → SymbolInstance
unfolding proto_span to_proto_instance_type
instance_of s symbol_id =
    record (new_instance symbol_id (to_proto_instance_type s.instance_type) (to_int32 s.start)
      (to_int32 s.end)) {
        name = proto_span s.spans.name s.start s.end;
        signature = proto_span s.spans.signature s.start s.end;
        content = proto_span s.spans.content s.start s.end;
      }

-- `m[key]` of a map of slices
abbrev pub listed {ℓ} : {A : Type ℓ} → Option (List A) → List A
listed none = []
listed (some xs) = xs

abbrev pub key_of : NewSymbol → ℕ → InstanceKey
key_of s symbol_id = record {
  symbol_id = symbol_id;
  file_id = s.file_id;
  start = s.start;
  end = s.end;
}

abbrev pub entry_of : NewSymbol → ℕ → ℕ → InstanceEntry
entry_of s symbol_id id = record {
  symbol_id = symbol_id;
  file_id = s.file_id;
  symbol_type = s.symbol_type;
  start = s.start;
  end = s.end;
  instance_id = id;
}

-- The writes for an instance that is new, at the position `p` of its object `o`.
unfoldable pub create_instance : NewSymbol → ℕ → ℕ → Object → ProtoIndex → ℕ × ProtoIndex
unfolding accepted_parent instance_of
create_instance s symbol_id p o i =
    let id = i.next_instance_id in
    let slot : InstanceSlot = record { object = s.file_id; idx = length o.symbol_instances } in
    let j = record i {
      next_instance_id = suc id;
      slot_by_instance = insert id slot i.slot_by_instance;
    } in
    let k = state_parent slot (accepted_parent j s.parent slot) j in
    let l = modify_object p (append_instance (instance_of s symbol_id)) k in
    let lookup_key : InstanceLookupKey = record {
      name = s.name;
      scope = s.scope;
      symbol_type = s.symbol_type;
    } in
    (
      id,
      record l {
        instances_by_file =
            insert s.file_id
              (listed (lookup s.file_id l.instances_by_file) ++ entry_of s symbol_id id ∷ [])
              l.instances_by_file;
        instance_id_by_key = insert (key_of s symbol_id) id l.instance_id_by_key;
        instances_by_lookup =
            insert lookup_key (listed (lookup lookup_key l.instances_by_lookup) ++ id ∷ [])
              l.instances_by_lookup;
      },
    )

unfoldable pub instance_or_new : NewSymbol → ℕ → ℕ → Object → Option ℕ → ProtoIndex → ℕ × ProtoIndex
unfolding create_instance
instance_or_new s symbol_id p o (some id) i = (id, i)
instance_or_new s symbol_id p o none i = create_instance s symbol_id p o i

-- The same symbol in the same file with the same extent is the same instance.
unfoldable pub instance_for : NewSymbol → ℕ → ℕ → Object → ProtoIndex → ℕ × ProtoIndex
unfolding instance_or_new
instance_for s symbol_id p o i =
    instance_or_new s symbol_id p o (lookup (key_of s symbol_id) i.instance_id_by_key) i

unfoldable pub record_symbol : NewSymbol → ℕ → Object → ProtoIndex → (ℕ × ℕ) × ProtoIndex
unfolding symbol_for name_in_file instance_for
record_symbol s p o i =
    let found = symbol_for s i in
    let k = name_in_file s found.0 found.1 in
    let made = instance_for (clamp s (length o.content)) found.0 p o k in
    ((found.0, made.0), made.1)

-- Nothing is written after a failed check.
unfoldable pub record_checked :
    NewSymbol → Outcome (ℕ × Object) → ProtoIndex → Outcome (ℕ × ℕ) × ProtoIndex
unfolding record_symbol
record_checked s (failed e) i = (failed e, i)
record_checked s (done (p, o)) i = let made = record_symbol s p o i in (done made.0, made.1)

-- `AddSymbol`: the symbol's and the instance's identifiers, or an error
unfoldable pub add_symbol : NewSymbol → ProtoIndex → Outcome (ℕ × ℕ) × ProtoIndex
unfolding check_symbol record_checked
add_symbol s i = record_checked s (check_symbol s i) i
