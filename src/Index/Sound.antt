-- ===== src/Index/Sound.antt =====
-- pkg/index/proto_index.go, `AddSymbol`: what it keeps true of the index.
use askl_golang_indexer.Prelude.{
  ℕ, zero, suc, ◌≤◌, ◌<◌, ◌≡◌, refl, ◌∙◌, sym, subst, false, Option, none, some, List, [], ◌∷◌,
  arith, length, All, All-append, get_elem?, set, lookup, insert, lookup-insert, Text, text_eq,
  nat_eq, if◌then◌else◌,
}
use askl_golang_indexer.Prelude.Int.{ℤ, pos, ◌≤ℤ◌, to_int32, max_int32}
use askl_golang_indexer.Proto.{SymbolInstance, Object}
use askl_golang_indexer.ObjectTree.{InstanceSlot, slot_eq, slot_beq, slot_beq_iff}
use askl_golang_indexer.Index.State.{ProtoIndex, symbol_key_eq}
use askl_golang_indexer.Index.Files.{Outcome, done, failed, modify, file_of, append_instance}
use askl_golang_indexer.Index.Symbols.{
  NewSymbol, out_of_range, check_symbol, symbol_for, symbol_or_new, name_in_file, name_at, clamp,
  accepted_parent, state_parent, symbol_key, instance_of, create_instance, instance_or_new,
  instance_for, record_symbol, record_checked, add_symbol,
}
use askl_golang_indexer.Index.Extents.{to_int32_same}

-- The extent of an instance lies in its object, and is not inverted.
abbrev pub InObject : ℕ → SymbolInstance → Type 0
InObject limit inst =
    (pos 0 ≤ℤ inst.start_offset)
    × (inst.start_offset ≤ℤ inst.end_offset)
    × (inst.end_offset ≤ℤ pos limit)

abbrev pub SoundObject : Object → Type 0
SoundObject o =
    (length o.content ≤ max_int32) × All (InObject (length o.content)) o.symbol_instances

-- Every content fits an int32, every extent lies in its object, and a stated parent stands before
-- its child in the slice.
pub record IsSound (i : ProtoIndex) : Type 0 where
  pub extents : All SoundObject i.project.objects
  pub backwards :
      (slot : InstanceSlot) (p : ℕ) → lookup slot i.stated_parent ≡ some p → p < slot.idx

pub All-get :
    (P : Object → Type 0) (os : List Object) (p : ℕ) (o : Object)
    → All P os
    → get_elem? os p ≡ some o
    → P o
All-get P [] p o h e = absurd (ground arith)
All-get P (x ∷ os) zero o h e = subst P (ground arith) h.0
All-get P (x ∷ os) (suc p) o h e = All-get P os p o h.1 e

All-set :
    (P : Object → Type 0) (os : List Object) (p : ℕ) (o : Object)
    → All P os
    → P o
    → All P (set os p o)
All-set P [] p o h k = tt
All-set P (x ∷ os) zero o h k = (k, h.1)
All-set P (x ∷ os) (suc p) o h k = (h.0, All-set P os p o h.1 k)

pub All-modify :
    (P : Object → Type 0) (os : List Object) (p : ℕ) (o : Object) (f : Object → Object)
    → All P os
    → get_elem? os p ≡ some o
    → P (f o)
    → All P (modify os p f)
All-modify P os p o f h e k = rw (e, modify) (All-set P os p (f o) h k)

-- What a call that passes the checks may rely on.
abbrev Passes : NewSymbol → ProtoIndex → ℕ → Object → Type 0
Passes s i p o = (get_elem? i.project.objects p ≡ some o) × (pos 0 ≤ℤ s.start) × (pos 0 ≤ℤ s.end)

pub file_of_at :
    (i : ProtoIndex) (id p : ℕ) (o : Object)
    → file_of i id ≡ some (p, o)
    → get_elem? i.project.objects p ≡ some o
file_of_at i id p o h = at_found (lookup id i.file_by_id) refl
  where
    at_found : (q : Option ℕ) → lookup id i.file_by_id ≡ q → get_elem? i.project.objects p ≡ some o
    at_found none e = absurd (ground arith)
    at_found (some q) e = ground arith

pos_of_range : (x : ℤ) → out_of_range x ≡ false → (pos 0 ≤ℤ x) × (x ≤ℤ pos max_int32)
pos_of_range x h = ground arith

pub check_iff :
    (s : NewSymbol) (i : ProtoIndex) (p : ℕ) (o : Object)
    → check_symbol s i ≡ done (p, o)
    → (file_of i s.file_id ≡ some (p, o))
      × (out_of_range s.start ≡ false)
      × (out_of_range s.end ≡ false)
unfolding check_symbol
check_iff s i p o h = ground arith

new_InObject :
    (s : NewSymbol) (symbol_id limit : ℕ)
    → pos 0 ≤ℤ s.start
    → s.start ≤ℤ s.end
    → limit ≤ max_int32
    → InObject limit (instance_of (clamp s limit) symbol_id)
unfolding instance_of
new_InObject s symbol_id limit h k l =
    let c = clamp s limit in
    let (a, b, d) : (pos 0 ≤ℤ c.start) × (c.start ≤ℤ c.end) × (c.end ≤ℤ pos limit) = ground arith in
    let x = to_int32_same c.start a (omega (arith, b, d, l)) in
    let y = to_int32_same c.end (omega (arith, a, b)) (omega (arith, d, l)) in
    subst (λ u. (pos 0 ≤ℤ u) × (u ≤ℤ to_int32 c.end) × (to_int32 c.end ≤ℤ pos limit)) (sym x)
      (subst (λ v. (pos 0 ≤ℤ c.start) × (c.start ≤ℤ v) × (v ≤ℤ pos limit)) (sym y) (a, b, d))

-- What the writes to the symbol maps leave alone.
abbrev pub SameTrees : ProtoIndex → ProtoIndex → Type 0
SameTrees j i = (j.project.objects ≡ i.project.objects) × (j.stated_parent ≡ i.stated_parent)

symbol_or_new-SameTrees :
    (s : NewSymbol) (q : Option ℕ) (i : ProtoIndex) → SameTrees (symbol_or_new s q i).1 i
unfolding symbol_or_new
symbol_or_new-SameTrees s none i = (refl, refl)
symbol_or_new-SameTrees s (some id) i = (refl, refl)

name_at-SameTrees :
    (s : NewSymbol) (id : ℕ) (q : Option Text) (i : ProtoIndex) → SameTrees (name_at s id q i) i
unfolding name_at
name_at-SameTrees s id none i = (refl, refl)
name_at-SameTrees s id (some []) i = (refl, refl)
name_at-SameTrees s id (some (c ∷ path)) i = (refl, refl)

abbrev pub named : NewSymbol → ProtoIndex → ProtoIndex
named s i = name_in_file s (symbol_for s i).0 (symbol_for s i).1

pub named-SameTrees : (s : NewSymbol) (i : ProtoIndex) → SameTrees (named s i) i
unfolding name_in_file symbol_for
named-SameTrees s i =
    let found = symbol_or_new s (lookup (symbol_key s) i.symbol_by_key) i in
    let (a, b) = symbol_or_new-SameTrees s (lookup (symbol_key s) i.symbol_by_key) i in
    let (c, d) = name_at-SameTrees s found.0 (lookup s.file_id found.1.file_path_by_id) found.1 in
    (c ∙ a, d ∙ b)

SameTrees-IsSound : (j i : ProtoIndex) → SameTrees j i → IsSound i → IsSound j
SameTrees-IsSound j i (e, d) h = record {
  extents = subst (All SoundObject) (sym e) h.extents;
  backwards =
      subst (λ m. (slot : InstanceSlot) (p : ℕ) → lookup slot m ≡ some p → p < slot.idx) (sym d)
        h.backwards;
}

accepted_earlier :
    (i : ProtoIndex) (parent : ℕ) (slot : InstanceSlot) (p : ℕ)
    → accepted_parent i parent slot ≡ some p
    → p < slot.idx
unfolding accepted_parent
accepted_earlier i parent slot p h = ground arith

state_parent-IsSound :
    (slot : InstanceSlot) (q : Option ℕ) (i : ProtoIndex)
    → ((p : ℕ) → q ≡ some p → p < slot.idx)
    → IsSound i
    → IsSound (state_parent slot q i)
state_parent-IsSound slot none i b h = record { extents = h.extents; backwards = h.backwards }
state_parent-IsSound slot (some c) i b h = record {
  extents = h.extents;
  backwards = λ other p e. earlier other p (sym (lookup-insert slot other c i.stated_parent) ∙ e);
}
  where
    earlier :
        (other : InstanceSlot) (p : ℕ)
        → (if slot_beq slot other then some c else lookup other i.stated_parent) ≡ some p
        → p < other.idx
    earlier other p e = ground (arith, b c refl, h.backwards other p, slot_beq_iff slot other)

create_instance-IsSound :
    (s : NewSymbol) (symbol_id p : ℕ) (o : Object) (i : ProtoIndex)
    → get_elem? i.project.objects p ≡ some o
    → InObject (length o.content) (instance_of s symbol_id)
    → IsSound i
    → IsSound (create_instance s symbol_id p o i).1
unfolding create_instance
create_instance-IsSound s symbol_id p o i at_p inside h =
    let slot : InstanceSlot = record { object = s.file_id; idx = length o.symbol_instances } in
    let j = record i {
      next_instance_id = suc i.next_instance_id;
      slot_by_instance = insert i.next_instance_id slot i.slot_by_instance;
    } in
    let k = state_parent slot (accepted_parent j s.parent slot) j in
    let sound : IsSound k =
      state_parent-IsSound slot (accepted_parent j s.parent slot) j
        (accepted_earlier j s.parent slot)
        (record { extents = h.extents; backwards = h.backwards }) in
    let same : k.project.objects ≡ i.project.objects =
      same_objects slot (accepted_parent j s.parent slot) j in
    let (fits, all) = All-get SoundObject i.project.objects p o h.extents at_p in
    record {
      extents =
          All-modify SoundObject k.project.objects p o (append_instance (instance_of s symbol_id))
            sound.extents (subst (λ os. get_elem? os p ≡ some o) (sym same) at_p)
            (
              fits,
              All-append (InObject (length o.content)) o.symbol_instances
                  (instance_of s symbol_id ∷ []) all (inside, tt),
            );
      backwards = sound.backwards;
    }
  where
    same_objects :
        (slot : InstanceSlot) (q : Option ℕ) (j : ProtoIndex)
        → (state_parent slot q j).project.objects ≡ j.project.objects
    same_objects slot none j = refl
    same_objects slot (some c) j = refl

instance_or_new-IsSound :
    (s : NewSymbol) (symbol_id p : ℕ) (o : Object) (q : Option ℕ) (i : ProtoIndex)
    → get_elem? i.project.objects p ≡ some o
    → InObject (length o.content) (instance_of s symbol_id)
    → IsSound i
    → IsSound (instance_or_new s symbol_id p o q i).1
unfolding instance_or_new
instance_or_new-IsSound s symbol_id p o (some id) i a b h = h
instance_or_new-IsSound s symbol_id p o none i a b h =
    create_instance-IsSound s symbol_id p o i a b h

record_checked-IsSound :
    (s : NewSymbol) (i : ProtoIndex) (found : Outcome (ℕ × Object))
    → check_symbol s i ≡ found
    → s.start ≤ℤ s.end
    → IsSound i
    → IsSound (record_checked s found i).1
unfolding record_checked record_symbol instance_for
record_checked-IsSound s i (failed e) c l h = h
record_checked-IsSound s i (done (p, o)) c l h =
    let (f, r, r') = check_iff s i p o c in
    let at_p = file_of_at i s.file_id p o f in
    let (fits, all) = All-get SoundObject i.project.objects p o h.extents at_p in
    let same = named-SameTrees s i in
    instance_or_new-IsSound (clamp s (length o.content)) (symbol_for s i).0 p o _ (named s i)
      (subst (λ os. get_elem? os p ≡ some o) (sym same.0) at_p)
      (new_InObject s (symbol_for s i).0 (length o.content) (pos_of_range s.start r).0 l fits)
      (SameTrees-IsSound (named s i) i same h)

-- Whatever the arguments of a call are, its extent not inverted, and whether it fails or not: where
-- every content fitted an int32, every instance lay in its object and every stated parent stood
-- before its child, that is so after the call, also where the extent ended past the object.
pub add_symbol-IsSound :
    (s : NewSymbol) (i : ProtoIndex) → s.start ≤ℤ s.end → IsSound i → IsSound (add_symbol s i).1
unfolding add_symbol
add_symbol-IsSound s i l h = record_checked-IsSound s i (check_symbol s i) refl l h
