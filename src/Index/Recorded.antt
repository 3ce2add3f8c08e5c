-- ===== src/Index/Recorded.antt =====
-- pkg/index/proto_index.go: after `AddFile`, the file is found, and adding it again changes nothing.
use askl_golang_indexer.Prelude.{
  ℕ, ◌≡◌, refl, ◌∙◌, ◌∷◌, ◌++◌, Map, ap, sym, subst, inl, inr, Bool, true, false, Option, none,
  some, List, [], arith, Text, text_beq, text_beq_iff, ==_iff, lookup, insert, nat_eq, text_eq,
  lookup-insert, Bool-cases,
}
use askl_golang_indexer.Index.State.{ProtoIndex, ModuleInfo}
use askl_golang_indexer.Index.Files.{
  Outcome, done, failed, compute_hash, join_module, join_found, missing_module, create_file,
  known_file, file_for, add_file, find_file_id, hash_mismatch,
}

abbrev stored_in : Option Text → Text
stored_in none = []
stored_in (some h) = h

join_module_ids :
    (m : Option ℕ) (f : ℕ) (k : ProtoIndex)
    → (join_module m f k).file_id_by_path ≡ k.file_id_by_path
join_module_ids none f k = refl
join_module_ids (some m) f k = at_info (lookup m k.module_by_id)
  where
    at_info :
        (o : Option ModuleInfo)
        → (join_found o m f
            (record k { file_module_id = insert f m k.file_module_id })).file_id_by_path
          ≡ k.file_id_by_path
    at_info none = refl
    at_info (some info) = refl

join_module_hashes :
    (m : Option ℕ) (f : ℕ) (k : ProtoIndex)
    → (join_module m f k).file_hash_by_path ≡ k.file_hash_by_path
join_module_hashes none f k = refl
join_module_hashes (some m) f k = at_info (lookup m k.module_by_id)
  where
    at_info :
        (o : Option ModuleInfo)
        → (join_found o m f
            (record k { file_module_id = insert f m k.file_module_id })).file_hash_by_path
          ≡ k.file_hash_by_path
    at_info none = refl
    at_info (some info) = refl

join_module_found :
    (m : Option ℕ) (f : ℕ) (k : ProtoIndex)
    → missing_module m k ≡ false
    → missing_module m (join_module m f k) ≡ false
join_module_found none f k h = refl
join_module_found (some m) f k h = at_info (lookup m k.module_by_id) refl
  where
    at_info :
        (o : Option ModuleInfo)
        → lookup m k.module_by_id ≡ o
        → missing_module
            (some m)
            (join_found o m f (record k { file_module_id = insert f m k.file_module_id }))
          ≡ false
    at_info none e = h
    at_info (some info) e = ground (
      arith,
      (==_iff m m).1 refl,
      lookup-insert m m (record info { file_ids = info.file_ids ++ f ∷ [] }) k.module_by_id,
    )

missing_module_same :
    (m : Option ℕ) (i k : ProtoIndex)
    → k.module_by_id ≡ i.module_by_id
    → missing_module m i ≡ false
    → missing_module m k ≡ false
missing_module_same none i k e h = refl
missing_module_same (some m) i k e h =
    subst
      (λ (modules : Map ℕ ModuleInfo).
        elim (lookup m modules) as (λ _. Bool) [ none ↦ true | some _ ↦ false ] ≡ false)
      (sym e) h

pub lookup_inserted :
    {V : Type 0} (path : Text) (v : V) (files : Map Text V)
    → lookup path (insert path v files) ≡ some v
lookup_inserted path v files =
    ground (arith, (text_beq_iff path path).1 refl, lookup-insert path path v files)

module _ (clean : Text → Text) (sha256 : List ℕ → List ℕ) where
  -- The file has its identifier, its hash, and the module is there.
  record Recorded (m : Option ℕ) (path : Text) (contents : List ℕ) (id : ℕ) (j : ProtoIndex)
      : Type 0 where
    module_found : missing_module m j ≡ false
    id_found : lookup path j.file_id_by_path ≡ some id
    hash_found :
        text_beq (compute_hash clean sha256 contents) (stored_in (lookup path j.file_hash_by_path))
        ≡ true

  create_file-Recorded :
      (m : Option ℕ) (base_dir path filetype : Text) (contents : List ℕ) (i : ProtoIndex)
      → missing_module m i ≡ false
      → Recorded m path contents i.next_file_id
          (create_file clean sha256 m base_dir path filetype contents i).1
  unfolding create_file
  create_file-Recorded m base_dir path filetype contents i h = record {
    module_found = join_module_found m i.next_file_id _ (missing_module_same m i _ refl h);
    id_found =
        ap (lookup path) (join_module_ids m i.next_file_id _)
        ∙ lookup_inserted path i.next_file_id i.file_id_by_path;
    hash_found =
        ap (λ o. text_beq (compute_hash clean sha256 contents) (stored_in o))
          (ap (lookup path) (join_module_hashes m i.next_file_id _)
            ∙ lookup_inserted path (compute_hash clean sha256 contents) i.file_hash_by_path)
        ∙ (text_beq_iff (compute_hash clean sha256 contents) (compute_hash clean sha256 contents)).1
            refl;
  }

  created_id :
      (m : Option ℕ) (base_dir path filetype : Text) (contents : List ℕ) (i : ProtoIndex)
      → (create_file clean sha256 m base_dir path filetype contents i).0 ≡ done i.next_file_id
  unfolding create_file
  created_id m base_dir path filetype contents i = refl

  same_done : {a b : ℕ} → ◌≡◌ {A = Outcome ℕ} (done a) (done b) → a ≡ b
  same_done e = ground arith

  known_file_accepts :
      (path : Text) (contents : List ℕ) (id : ℕ) (i : ProtoIndex)
      → text_beq (compute_hash clean sha256 contents) (stored_in (lookup path i.file_hash_by_path))
        ≡ true
      → known_file clean sha256 path contents id i ≡ (done id, i)
  unfolding known_file
  known_file_accepts path contents id i h = at_stored (lookup path i.file_hash_by_path) refl
    where
      at_stored :
          (o : Option Text)
          → lookup path i.file_hash_by_path ≡ o
          → known_file clean sha256 path contents id i ≡ (done id, i)
      at_stored none e = ground arith
      at_stored (some stored) e = ground arith

  known_file_refuses :
      (path : Text) (contents : List ℕ) (id : ℕ) (i : ProtoIndex)
      → text_beq (compute_hash clean sha256 contents) (stored_in (lookup path i.file_hash_by_path))
        ≡ false
      → known_file clean sha256 path contents id i ≡ (failed hash_mismatch, i)
  unfolding known_file
  known_file_refuses path contents id i h = at_stored (lookup path i.file_hash_by_path) refl
    where
      at_stored :
          (o : Option Text)
          → lookup path i.file_hash_by_path ≡ o
          → known_file clean sha256 path contents id i ≡ (failed hash_mismatch, i)
      at_stored none e = ground arith
      at_stored (some stored) e = ground arith

  known_file-done :
      (path : Text) (contents : List ℕ) (f id : ℕ) (i j : ProtoIndex)
      → known_file clean sha256 path contents f i ≡ (done id, j)
      → text_beq (compute_hash clean sha256 contents) (stored_in (lookup path i.file_hash_by_path))
        ≡ true
  known_file-done path contents f id i j e =
      elim (Bool-cases (
        text_beq (compute_hash clean sha256 contents)
          (stored_in (lookup path i.file_hash_by_path)))) [
            | inl t ↦ t
            | inr t ↦ absurd (
                not_failed (
                  ap (λ (out : Outcome ℕ × ProtoIndex). out.0)
                    (sym (known_file_refuses path contents f i t) ∙ e)))
          ]
    where
      not_failed : ◌≡◌ {A = Outcome ℕ} (failed hash_mismatch) (done id) → ⊥
      not_failed x = ground arith

  -- What a call that succeeds leaves.
  file_for-Recorded :
      (m : Option ℕ) (base_dir path filetype : Text) (contents : List ℕ) (q : Option ℕ) (id : ℕ)
      (i j : ProtoIndex)
      → missing_module m i ≡ false
      → lookup path i.file_id_by_path ≡ q
      → file_for clean sha256 m base_dir path filetype contents q i ≡ (done id, j)
      → Recorded m path contents id j
  unfolding file_for
  file_for-Recorded m base_dir path filetype contents none id i j h e f =
      let made = create_file clean sha256 m base_dir path filetype contents i in
      subst (λ (out : Outcome ℕ × ProtoIndex). Recorded m path contents id out.1) f
        (subst (λ n. Recorded m path contents n made.1)
          (same_done (
            sym (created_id m base_dir path filetype contents i)
            ∙ ap (λ (out : Outcome ℕ × ProtoIndex). out.0) f))
          (create_file-Recorded m base_dir path filetype contents i h))
  file_for-Recorded m base_dir path filetype contents (some g) id i j h e f =
      let ok_hash = known_file-done path contents g id i j f in
      let same = sym (known_file_accepts path contents g i ok_hash) ∙ f in
      subst (λ (out : Outcome ℕ × ProtoIndex). Recorded m path contents id out.1) same
        (subst (λ n. Recorded m path contents n i)
          (same_done (ap (λ (out : Outcome ℕ × ProtoIndex). out.0) same))
          (record { module_found = h; id_found = e; hash_found = ok_hash }))

  add_file-Recorded :
      (m : Option ℕ) (base_dir path filetype : Text) (contents : List ℕ) (id : ℕ) (i j : ProtoIndex)
      → add_file clean sha256 m base_dir path filetype contents i ≡ (done id, j)
      → Recorded m (clean path) contents id j
  unfolding add_file
  add_file-Recorded m base_dir path filetype contents id i j e =
      elim (Bool-cases (missing_module m i)) [
        | inl h ↦ absurd (ground arith)
        | inr h ↦
            file_for-Recorded m base_dir (clean path) filetype contents
              (lookup (clean path) i.file_id_by_path) id i j h refl (rw h at e)
      ]

  -- After an AddFile that succeeds, FindFileId finds the file under its clean path, with the
  -- identifier that was returned.
  pub find_file_id-add_file :
      (m : Option ℕ) (base_dir path filetype : Text) (contents : List ℕ) (id : ℕ) (i j : ProtoIndex)
      → add_file clean sha256 m base_dir path filetype contents i ≡ (done id, j)
      → find_file_id (clean path) j ≡ done id
  unfolding find_file_id
  find_file_id-add_file m base_dir path filetype contents id i j e =
      let r = add_file-Recorded m base_dir path filetype contents id i j e in
      rw (find_file_id, r.id_found) refl

  -- After an AddFile that succeeds, the same call again, with any base directory and file type,
  -- gives the same identifier and leaves the index as it is.
  pub add_file_again :
      (m : Option ℕ) (base_dir path filetype : Text) (contents : List ℕ) (id : ℕ) (i j : ProtoIndex)
      → add_file clean sha256 m base_dir path filetype contents i ≡ (done id, j)
      → (other_dir other_type : Text)
      → add_file clean sha256 m other_dir path other_type contents j ≡ (done id, j)
  unfolding add_file file_for
  add_file_again m base_dir path filetype contents id i j e other_dir other_type =
      let r = add_file-Recorded m base_dir path filetype contents id i j e in
      rw (r.module_found, r.id_found) (known_file_accepts (clean path) contents id j r.hash_found)
