-- ===== src/Index/Writes.antt =====
-- pkg/index/proto_index.go, `AddSymbol`: what its writes leave alone, and what a later call finds.
use askl_golang_indexer.Prelude.{
  ℕ, zero, suc, ◌≡◌, refl, ◌∙◌, ap, sym, subst, Option, none, some, List, [], ◌∷◌, arith, length,
  get_elem?, set, Map, Eq, lookup, insert, lookup-insert, nat_eq, Text, text_eq,
}
use askl_golang_indexer.Proto.{Object}
use askl_golang_indexer.ObjectTree.{InstanceSlot}
use askl_golang_indexer.Index.State.{
  ProtoIndex, FileNameKey, InstanceKey, symbol_key_eq, file_name_key_eq, instance_key_eq,
}
use askl_golang_indexer.Index.Files.{done, modify, file_of, append_instance}
use askl_golang_indexer.Index.Symbols.{
  NewSymbol, symbol_key, check_symbol, symbol_or_new, name_at, accepted_parent, state_parent,
  key_of, instance_of, create_instance, instance_or_new,
}

insert-same {ℓ κ} :
    {K : Type ℓ} {V : Type κ} ⦃e : Eq K⦄ (k : K) (v : V) (m : Map K V)
    → lookup k m ≡ some v
    → insert k v m ≡ m
insert-same k v [] h = absurd (ground arith)
insert-same ⦃e⦄ k v ((j, w) ∷ m) h = ground (arith, e.beq_iff j k, insert-same k v m)

lookup-insert_self {ℓ κ} :
    {K : Type ℓ} {V : Type κ} ⦃e : Eq K⦄ (k : K) (v : V) (m : Map K V)
    → lookup k (insert k v m) ≡ some v
lookup-insert_self ⦃e⦄ k v m = lookup-insert k k v m ∙ rw ((e.beq_iff k k).1 refl) refl

get_elem?-set_self :
    (os : List Object) (p : ℕ) (o v : Object)
    → get_elem? os p ≡ some o
    → get_elem? (set os p v) p ≡ some v
get_elem?-set_self [] p o v h = absurd (ground arith)
get_elem?-set_self (x ∷ os) zero o v h = refl
get_elem?-set_self (x ∷ os) (suc p) o v h = get_elem?-set_self os p o v h

get_elem?-modify :
    (os : List Object) (p : ℕ) (o : Object) (f : Object → Object)
    → get_elem? os p ≡ some o
    → get_elem? (modify os p f) p ≡ some (f o)
get_elem?-modify os p o f h = rw (h, modify) (get_elem?-set_self os p o (f o) h)

pub file_of_parts :
    (i : ProtoIndex) (id p : ℕ) (o : Object)
    → file_of i id ≡ some (p, o)
    → (lookup id i.file_by_id ≡ some p) × (get_elem? i.project.objects p ≡ some o)
file_of_parts i id p o h = at_found (lookup id i.file_by_id) refl
  where
    at_found :
        (q : Option ℕ)
        → lookup id i.file_by_id ≡ q
        → (lookup id i.file_by_id ≡ some p) × (get_elem? i.project.objects p ≡ some o)
    at_found none e = absurd (ground arith)
    at_found (some q) e = ground arith

pub file_of_whole :
    (i : ProtoIndex) (id p : ℕ) (o : Object)
    → lookup id i.file_by_id ≡ some p
    → get_elem? i.project.objects p ≡ some o
    → file_of i id ≡ some (p, o)
file_of_whole i id p o h k = ground arith

pub check_same :
    (s : NewSymbol) (i j : ProtoIndex) (p : ℕ) (o o' : Object)
    → j.module_by_id ≡ i.module_by_id
    → file_of j s.file_id ≡ some (p, o')
    → check_symbol s i ≡ done (p, o)
    → (file_of i s.file_id ≡ some (p, o)) × (check_symbol s j ≡ done (p, o'))
unfolding check_symbol
check_same s i j p o o' m f h = ground arith

-- The parts of the index that a repeated call reads, after the writes of the first call.
pub record Keeps (j i : ProtoIndex) : Type 0 where
  pub modules : j.module_by_id ≡ i.module_by_id
  pub files : j.file_by_id ≡ i.file_by_id
  pub paths : j.file_path_by_id ≡ i.file_path_by_id

pub symbol_or_new-again :
    (s : NewSymbol) (q : Option ℕ) (i : ProtoIndex)
    → lookup (symbol_key s) i.symbol_by_key ≡ q
    → lookup (symbol_key s) (symbol_or_new s q i).1.symbol_by_key ≡ some (symbol_or_new s q i).0
unfolding symbol_or_new
symbol_or_new-again s (some id) i e = e
symbol_or_new-again s none i e = lookup-insert_self (symbol_key s) i.next_symbol_id i.symbol_by_key

pub symbol_or_new-Keeps :
    (s : NewSymbol) (q : Option ℕ) (i : ProtoIndex)
    → Keeps (symbol_or_new s q i).1 i
      × ((symbol_or_new s q i).1.project.objects ≡ i.project.objects)
unfolding symbol_or_new
symbol_or_new-Keeps s (some id) i = (record { modules = refl; files = refl; paths = refl }, refl)
symbol_or_new-Keeps s none i = (record { modules = refl; files = refl; paths = refl }, refl)

pub name_at-Keeps :
    (s : NewSymbol) (id : ℕ) (q : Option Text) (i : ProtoIndex)
    → Keeps (name_at s id q i) i
      × ((name_at s id q i).project.objects ≡ i.project.objects)
      × ((name_at s id q i).symbol_by_key ≡ i.symbol_by_key)
unfolding name_at
name_at-Keeps s id none i = (record { modules = refl; files = refl; paths = refl }, refl, refl)
name_at-Keeps s id (some []) i = (record { modules = refl; files = refl; paths = refl }, refl, refl)
name_at-Keeps s id (some (c ∷ path)) i =
    (record { modules = refl; files = refl; paths = refl }, refl, refl)

-- Where a later index has the same names in files, naming again changes nothing.
pub name_at-again :
    (s : NewSymbol) (id : ℕ) (q : Option Text) (i j : ProtoIndex)
    → j.symbol_by_file_and_name ≡ (name_at s id q i).symbol_by_file_and_name
    → name_at s id q j ≡ j
unfolding name_at
name_at-again s id none i j e = refl
name_at-again s id (some []) i j e = refl
name_at-again s id (some (c ∷ path)) i j e =
    let key : FileNameKey = record { file_path = c ∷ path; name = s.name } in
    ap (λ m. the_index m)
      (insert-same key id j.symbol_by_file_and_name (
        subst (λ m. lookup key m ≡ some id) (sym e)
          (lookup-insert_self key id i.symbol_by_file_and_name)))
  where
    the_index : Map FileNameKey ℕ → ProtoIndex
    the_index m = record j { symbol_by_file_and_name = m }

-- After the instance is made: what stays, what is found, and the object.
pub record Made (i : ProtoIndex) (key : InstanceKey) (p : ℕ) (o : Object) (out : ℕ × ProtoIndex)
    : Type 0 where
  pub keeps : Keeps out.1 i
  pub keys : out.1.symbol_by_key ≡ i.symbol_by_key
  pub names : out.1.symbol_by_file_and_name ≡ i.symbol_by_file_and_name
  pub found : lookup key out.1.instance_id_by_key ≡ some out.0
  pub object :
      (o' : Object) × (get_elem? out.1.project.objects p ≡ some o') × (o'.content ≡ o.content)

state_parent_objects :
    (slot : InstanceSlot) (q : Option ℕ) (j : ProtoIndex)
    → state_parent slot q j ≡ record j { stated_parent = (state_parent slot q j).stated_parent }
state_parent_objects slot none j = refl
state_parent_objects slot (some c) j = refl

pub instance_or_new-Made :
    (s : NewSymbol) (id p : ℕ) (o : Object) (q : Option ℕ) (i : ProtoIndex)
    → lookup (key_of s id) i.instance_id_by_key ≡ q
    → get_elem? i.project.objects p ≡ some o
    → Made i (key_of s id) p o (instance_or_new s id p o q i)
unfolding instance_or_new create_instance
instance_or_new-Made s id p o (some iid) i e h = record {
  keeps = record { modules = refl; files = refl; paths = refl };
  keys = refl;
  names = refl;
  found = e;
  object = (o, h, refl);
}
instance_or_new-Made s id p o none i e h =
    let slot : InstanceSlot = record { object = s.file_id; idx = length o.symbol_instances } in
    let j = record i {
      next_instance_id = suc i.next_instance_id;
      slot_by_instance = insert i.next_instance_id slot i.slot_by_instance;
    } in
    let same = state_parent_objects slot (accepted_parent j s.parent slot) j in
    record {
      keeps = record {
        modules = ap (λ k. k.module_by_id) same;
        files = ap (λ k. k.file_by_id) same;
        paths = ap (λ k. k.file_path_by_id) same;
      };
      keys = ap (λ k. k.symbol_by_key) same;
      names = ap (λ k. k.symbol_by_file_and_name) same;
      found =
          lookup-insert_self (key_of s id) i.next_instance_id
            (state_parent slot (accepted_parent j s.parent slot) j).instance_id_by_key;
      object = (
        append_instance (instance_of s id) o,
        get_elem?-modify (state_parent slot (accepted_parent j s.parent slot) j).project.objects p o
            (append_instance (instance_of s id))
            (subst (λ os. get_elem? os p ≡ some o) (sym (ap (λ k. k.project.objects) same)) h),
        refl,
      );
    }
