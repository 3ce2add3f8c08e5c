-- ===== src/Parser/Files/Opened.antt =====
-- pkg/parser/file_parser.go and assignment_parser.go: what making a file's parser leaves.
use askl_golang_indexer.Prelude.{
  ℕ, ◌≡◌, refl, ◌∙◌, ap, sym, inl, inr, Option, none, some, List, arith, Text, Result, ok, lookup,
  insert, text_eq, nat_eq, Bool-cases,
}
use askl_golang_indexer.Index.State.{ProtoIndex, ModuleInfo}
use askl_golang_indexer.Index.Files.{
  Outcome, done, failed, add_module, join_module, join_found, missing_module, create_file, file_for,
  add_file, find_file_id,
}
use askl_golang_indexer.Index.SoundFiles.{known_file-same}
use askl_golang_indexer.Index.Recorded.{lookup_inserted, find_file_id-add_file, add_file_again}
use askl_golang_indexer.Parser.Files.{
  FileError, base_dir_of, go_file_type, opened_as, open_contents, new_file_parser,
  new_assignment_parser,
}

-- A module that was added is found, and adding it again changes nothing.
add_module_found :
    (name : Text) (i : ProtoIndex)
    → lookup name (add_module name i).1.modules_by_name ≡ some (add_module name i).0
unfolding add_module
add_module_found name i = at_name (lookup name i.modules_by_name) refl
  where
    at_name :
        (o : Option ℕ)
        → lookup name i.modules_by_name ≡ o
        → lookup name (add_module name i).1.modules_by_name ≡ some (add_module name i).0
    at_name none e = rw (add_module, e) (lookup_inserted name i.next_module_id i.modules_by_name)
    at_name (some id) e = rw (add_module, e) e

add_module_known :
    (name : Text) (m : ℕ) (j : ProtoIndex)
    → lookup name j.modules_by_name ≡ some m
    → add_module name j ≡ (m, j)
unfolding add_module
add_module_known name m j e = rw (add_module, e) refl

join_module_names :
    (m : Option ℕ) (f : ℕ) (k : ProtoIndex)
    → (join_module m f k).modules_by_name ≡ k.modules_by_name
join_module_names none f k = refl
join_module_names (some m) f k = at_info (lookup m k.module_by_id)
  where
    at_info :
        (o : Option ModuleInfo)
        → (join_found o m f
            (record k { file_module_id = insert f m k.file_module_id })).modules_by_name
          ≡ k.modules_by_name
    at_info none = refl
    at_info (some info) = refl

opened_as-ok :
    (m n f : ℕ) (r : Outcome ℕ × ProtoIndex) (j : ProtoIndex)
    → opened_as m r ≡ (ok (n, f), j)
    → r ≡ (done f, j)
opened_as-ok m n f (done g, i) j e = ground arith
opened_as-ok m n f (failed x, i) j e = absurd (ground arith)

opened_as_id :
    (m n f : ℕ) (r : Outcome ℕ × ProtoIndex) (j : ProtoIndex)
    → opened_as m r ≡ (ok (n, f), j)
    → m ≡ n
opened_as_id m n f (done g, i) j e = ground arith
opened_as_id m n f (failed x, i) j e = absurd (ground arith)

module _ (read_file : Text → Option (List ℕ)) (clean : Text → Text) (sha256 : List ℕ → List ℕ) where
  file_for_names :
      (m : Option ℕ) (base_dir path filetype : Text) (contents : List ℕ) (q : Option ℕ)
      (i : ProtoIndex)
      → (file_for clean sha256 m base_dir path filetype contents q i).1.modules_by_name
        ≡ i.modules_by_name
  unfolding file_for create_file
  file_for_names m base_dir path filetype contents none i = join_module_names m i.next_file_id _
  file_for_names m base_dir path filetype contents (some id) i =
      ap (λ (k : ProtoIndex). k.modules_by_name) (known_file-same clean sha256 path contents id i)

  add_file_names :
      (m : Option ℕ) (base_dir path filetype : Text) (contents : List ℕ) (i : ProtoIndex)
      → (add_file clean sha256 m base_dir path filetype contents i).1.modules_by_name
        ≡ i.modules_by_name
  unfolding add_file
  add_file_names m base_dir path filetype contents i = elim (Bool-cases (missing_module m i)) [
    | inl e ↦ rw e refl
    | inr e ↦ rw e (
        file_for_names m base_dir (clean path) filetype contents
          (lookup (clean path) i.file_id_by_path) i)
  ]

  -- Where a file's parser is made, the index finds the file under its clean path, with the
  -- identifier that the parser has.
  pub find_file_id-new_file_parser :
      (root_path dir pkg_path path : Text) (m f : ℕ) (i j : ProtoIndex)
      → new_file_parser read_file clean sha256 root_path dir pkg_path path i ≡ (ok (m, f), j)
      → find_file_id (clean path) j ≡ done f
  unfolding new_file_parser open_contents
  find_file_id-new_file_parser root_path dir pkg_path path m f i j e =
      at_contents (read_file path) e
    where
      n : ℕ
      n = (add_module pkg_path i).0

      k : ProtoIndex
      k = (add_module pkg_path i).1

      at_contents :
          (o : Option (List ℕ))
          → open_contents read_file clean sha256 n (base_dir_of root_path dir) path o k
            ≡ (ok (m, f), j)
          → find_file_id (clean path) j ≡ done f
      at_contents none h = absurd (ground arith)
      at_contents (some contents) h =
          find_file_id-add_file clean sha256 (some n) (base_dir_of root_path dir) path go_file_type
            contents f k j (opened_as-ok n m f _ j h)

  -- Where a file's parser is made for the first stage, the parser that the second stage makes of the
  -- same file, with the contents as they were and on the index as it was left, has the same module
  -- and file and changes nothing.
  pub new_assignment_parser_again :
      (root_path dir pkg_path path : Text) (m f : ℕ) (i j : ProtoIndex)
      → new_file_parser read_file clean sha256 root_path dir pkg_path path i ≡ (ok (m, f), j)
      → new_assignment_parser read_file clean sha256 root_path dir pkg_path path j ≡ (ok (m, f), j)
  unfolding new_file_parser open_contents
  new_assignment_parser_again root_path dir pkg_path path m f i j e = at_contents (read_file path) e
    where
      n : ℕ
      n = (add_module pkg_path i).0

      k : ProtoIndex
      k = (add_module pkg_path i).1

      base : Text
      base = base_dir_of root_path dir

      with_module : ℕ × ProtoIndex → Option (List ℕ) → Result FileError (ℕ × ℕ) × ProtoIndex
      with_module added o = open_contents read_file clean sha256 added.0 base path o added.1

      at_contents :
          (o : Option (List ℕ))
          → open_contents read_file clean sha256 n base path o k ≡ (ok (m, f), j)
          → with_module (add_module pkg_path j) o ≡ (ok (m, f), j)
      at_contents none h = absurd (ground arith)
      at_contents (some contents) h =
          let added = opened_as-ok n m f _ j h in
          let names : lookup pkg_path j.modules_by_name ≡ some n =
            ap (λ (r : Outcome ℕ × ProtoIndex). lookup pkg_path r.1.modules_by_name) (sym added)
            ∙ ap (lookup pkg_path) (add_file_names (some n) base path go_file_type contents k)
            ∙ add_module_found pkg_path i in
          ap (λ a. with_module a (some contents)) (add_module_known pkg_path n j names)
          ∙ ap (opened_as n) (
              add_file_again clean sha256 (some n) base path go_file_type contents f k j added base
                go_file_type)
          ∙ ap (λ x. (ok (x, f), j)) (opened_as_id n m f _ j h)
