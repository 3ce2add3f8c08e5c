-- ===== src/Index/SoundFiles.antt =====
-- pkg/index/proto_index.go, `AddFile`: what it keeps true of the index, and a second call.
use askl_golang_indexer.Prelude.{
  ℕ, ◌≤◌, ◌≡◌, sym, subst, inl, inr, Option, none, some, List, [], ◌∷◌, arith, length, All-append,
  Text, lookup, insert, nat_eq, text_eq, Bool-cases,
}
use askl_golang_indexer.Prelude.Int.{pos, to_int32, max_int32, to_int32_fits, ◌≤ℤ◌}
use askl_golang_indexer.Index.State.{ProtoIndex, ModuleInfo, new_proto_index}
use askl_golang_indexer.Index.Files.{
  join_module, join_found, missing_module, create_file, known_file, file_for, add_file,
}
use askl_golang_indexer.Index.Sound.{SoundObject, IsSound}

-- An index with no calls yet.
pub new_proto_index-IsSound : (name root : Text) → IsSound (new_proto_index name root)
new_proto_index-IsSound name root = record {
  extents = tt;
  backwards = λ slot p e. absurd (ground arith);
}

join_found-IsSound :
    (q : Option ModuleInfo) (m file_id : ℕ) (i : ProtoIndex)
    → IsSound i
    → IsSound (join_found q m file_id i)
join_found-IsSound none m file_id i h = h
join_found-IsSound (some info) m file_id i h = record {
  extents = h.extents;
  backwards = h.backwards;
}

join_module-IsSound :
    (m : Option ℕ) (file_id : ℕ) (i : ProtoIndex) → IsSound i → IsSound (join_module m file_id i)
join_module-IsSound none file_id i h = h
join_module-IsSound (some m) file_id i h =
    join_found-IsSound (lookup m i.module_by_id) m file_id
      (record i { file_module_id = insert file_id m i.file_module_id })
      (record { extents = h.extents; backwards = h.backwards })

whole_within :
    (n : ℕ)
    → n ≤ max_int32
    → (pos 0 ≤ℤ pos 0) × (pos 0 ≤ℤ to_int32 (pos n)) × (to_int32 (pos n) ≤ℤ pos n)
whole_within n h =
    subst (λ v. (pos 0 ≤ℤ pos 0) × (pos 0 ≤ℤ v) × (v ≤ℤ pos n)) (sym (to_int32_fits n h))
      (omega arith, omega arith, omega arith)

module _ (clean : Text → Text) (sha256 : List ℕ → List ℕ) where
  create_file-IsSound :
      (m : Option ℕ) (base_dir path filetype : Text) (contents : List ℕ) (i : ProtoIndex)
      → length contents ≤ max_int32
      → IsSound i
      → IsSound (create_file clean sha256 m base_dir path filetype contents i).1
  unfolding create_file
  create_file-IsSound m base_dir path filetype contents i l h =
      join_module-IsSound m i.next_file_id _ (record {
        extents =
            All-append SoundObject i.project.objects (_ ∷ []) h.extents
              ((l, (whole_within (length contents) l, tt)), tt);
        backwards = h.backwards;
      })

  pub known_file-same :
      (path : Text) (contents : List ℕ) (id : ℕ) (i : ProtoIndex)
      → (known_file clean sha256 path contents id i).1 ≡ i
  unfolding known_file
  known_file-same path contents id i = ground arith

  file_for-IsSound :
      (m : Option ℕ) (base_dir path filetype : Text) (contents : List ℕ) (q : Option ℕ)
      (i : ProtoIndex)
      → length contents ≤ max_int32
      → IsSound i
      → IsSound (file_for clean sha256 m base_dir path filetype contents q i).1
  unfolding file_for
  file_for-IsSound m base_dir path filetype contents none i l h =
      create_file-IsSound m base_dir path filetype contents i l h
  file_for-IsSound m base_dir path filetype contents (some id) i l h =
      subst IsSound (sym (known_file-same path contents id i)) h

  -- Adding a file that an int32 can measure, new, known or refused, keeps every instance in its
  -- object and every stated parent before its child.
  pub add_file-IsSound :
      (m : Option ℕ) (base_dir path filetype : Text) (contents : List ℕ) (i : ProtoIndex)
      → length contents ≤ max_int32
      → IsSound i
      → IsSound (add_file clean sha256 m base_dir path filetype contents i).1
  unfolding add_file
  add_file-IsSound m base_dir path filetype contents i l h =
      elim (Bool-cases (missing_module m i)) [
        | inl e ↦ rw e h
        | inr e ↦ rw e (
            file_for-IsSound m base_dir (clean path) filetype contents
              (lookup (clean path) i.file_id_by_path) i l h)
      ]
