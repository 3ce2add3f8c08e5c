-- ===== src/Indexing/Tracked.antt =====
-- pkg/indexing/git_files.go: what `walkTree` lists, and what the tracked files leave in the index.
use mathlib.Core.List.{append-nil, append_assoc}
use askl_golang_indexer.Prelude.{
  ℕ, ◌≤◌, ◌≡◌, refl, ◌∙◌, ap, sym, subst, Option, none, some, List, [], ◌∷◌, ◌++◌, arith, length,
  Text, Result, ok, err, and_then, and_then-ok,
}
use askl_golang_indexer.Prelude.{In, inl, inr}
use askl_golang_indexer.Prelude.Int.{max_int32}
use askl_golang_indexer.Index.State.{ProtoIndex}
use askl_golang_indexer.Index.Files.{Outcome, done, failed}
use askl_golang_indexer.Index.Filetype.{guess_file_type}
use askl_golang_indexer.Index.Sound.{IsSound}
use askl_golang_indexer.Index.SoundFiles.{add_file-IsSound}
use askl_golang_indexer.Indexing.Paths.{Stat, is_dir, is_file, not_exist, stat_error}
use askl_golang_indexer.Indexing.Git.{
  GitTree, no_entry, dir_entry, lost_entry, submodule_entry, file_entry, GitError, tree_failed,
  submodule_at, entry_path, walk_tree, list_head_files, Repository, Disk, indexed, add_contents,
  add_if_file, add_tracked, add_all_tracked, open_repository, warn_if_dirty, add_git_tracked_files,
}

-- A tree as a specification: its file paths from left to right, and the first entry that stops the
-- walk.
module _ (join : Text → Text → Text) where
  abbrev pub paths_of : Text → GitTree → List Text
  paths_of prefix no_entry = []
  paths_of prefix (dir_entry name subtree rest) =
      paths_of (entry_path join prefix name) subtree ++ paths_of prefix rest
  paths_of prefix (lost_entry name rest) = paths_of prefix rest
  paths_of prefix (submodule_entry name rest) = paths_of prefix rest
  paths_of prefix (file_entry name rest) = entry_path join prefix name ∷ paths_of prefix rest

  abbrev or_else : Option GitError → Option GitError → Option GitError
  or_else none o = o
  or_else (some e) o = some e

  abbrev pub first_obstacle : Text → GitTree → Option GitError
  first_obstacle prefix no_entry = none
  first_obstacle prefix (dir_entry name subtree rest) =
      or_else (first_obstacle (entry_path join prefix name) subtree) (first_obstacle prefix rest)
  first_obstacle prefix (lost_entry name rest) = some (tree_failed (entry_path join prefix name))
  first_obstacle prefix (submodule_entry name rest) =
      some (submodule_at (entry_path join prefix name))
  first_obstacle prefix (file_entry name rest) = first_obstacle prefix rest

  abbrev pub listing : Option GitError → List Text → Result GitError (List Text)
  listing none files = ok files
  listing (some e) files = err e

  and_then-listing :
      (a b : Option GitError) (xs ys : List Text) (f : List Text → Result GitError (List Text))
      → f xs ≡ listing b ys
      → and_then (listing a xs) f ≡ listing (or_else a b) ys
  and_then-listing none b xs ys f h = h
  and_then-listing (some e) b xs ys f h = refl

  -- The recursive walk lists the paths of the files, deep ones at their directory's place, after
  -- what was listed before; or it stops with the error of the first directory that is lost or
  -- submodule that it meets.
  pub walk_tree-eq-listing :
      (tree : GitTree) (prefix : Text) (files : List Text)
      → walk_tree join tree prefix files
        ≡ listing (first_obstacle prefix tree) (files ++ paths_of prefix tree)
  unfolding walk_tree
  walk_tree-eq-listing no_entry prefix files = ap ok (sym (append-nil files))
  walk_tree-eq-listing (dir_entry name subtree rest) prefix files =
      let path = entry_path join prefix name in
      ap (λ r. and_then r (λ l. walk_tree join rest prefix l))
        (walk_tree-eq-listing subtree path files)
      ∙ and_then-listing (first_obstacle path subtree) (first_obstacle prefix rest)
          (files ++ paths_of path subtree)
          (files ++ (paths_of path subtree ++ paths_of prefix rest))
          (λ l. walk_tree join rest prefix l)
          (walk_tree-eq-listing rest prefix (files ++ paths_of path subtree)
            ∙ ap (listing (first_obstacle prefix rest))
                (append_assoc files (paths_of path subtree) (paths_of prefix rest)))
  walk_tree-eq-listing (lost_entry name rest) prefix files = refl
  walk_tree-eq-listing (submodule_entry name rest) prefix files = refl
  walk_tree-eq-listing (file_entry name rest) prefix files =
      walk_tree-eq-listing rest prefix (files ++ entry_path join prefix name ∷ [])
      ∙ ap (listing (first_obstacle prefix rest))
          (append_assoc files (entry_path join prefix name ∷ []) (paths_of prefix rest))

module _ (disk : Disk) where
  -- The contents of a file, where it can be read, have at most 2 ^ 31 - 1 bytes.
  abbrev pub FileFits : Text → Type 0
  FileFits path =
      (contents : List ℕ) → disk.read_file path ≡ some contents → length contents ≤ max_int32

  -- So do those of every file of HEAD, under the root of the repository.
  abbrev pub TrackedFit : Repository → Type 0
  TrackedFit repo =
      (root : Text) (paths : List Text)
      → open_repository disk repo ≡ ok root
      → list_head_files disk.join repo.head ≡ ok paths
      → (path : Text) → In path paths
      → FileFits (disk.join root (disk.from_slash path))

  indexed-IsSound :
      (r : Outcome ℕ × ProtoIndex) (j : ProtoIndex)
      → indexed disk r ≡ ok j
      → IsSound r.1
      → IsSound j
  indexed-IsSound (done id, i) j h s = subst IsSound (ground arith) s
  indexed-IsSound (failed e, i) j h s = absurd (ground arith)

  add_contents-IsSound :
      (root path : Text) (o : Option (List ℕ)) (i j : ProtoIndex)
      → FileFits path
      → disk.read_file path ≡ o
      → add_contents disk root path o i ≡ ok j
      → IsSound i
      → IsSound j
  unfolding add_contents
  add_contents-IsSound root path none i j small e h s = absurd (ground arith)
  add_contents-IsSound root path (some contents) i j small e h s = indexed-IsSound _ j h (
      add_file-IsSound disk.clean disk.sha256 none root path
        (guess_file_type disk.lower_ext disk.detect_content_type disk.trim_space path contents)
        contents i (small contents e) s)

  add_if_file-IsSound :
      (st : Stat) (root path : Text) (i j : ProtoIndex)
      → FileFits path
      → add_if_file disk st root path i ≡ ok j
      → IsSound i
      → IsSound j
  add_if_file-IsSound is_dir root path i j small h s = subst IsSound (ground arith) s
  add_if_file-IsSound is_file root path i j small h s =
      add_contents-IsSound root path (disk.read_file path) i j small refl h s
  add_if_file-IsSound not_exist root path i j small h s = absurd (ground arith)
  add_if_file-IsSound stat_error root path i j small h s = absurd (ground arith)

  add_all_tracked-IsSound :
      (root : Text) (paths : List Text) (i j : ProtoIndex)
      → ((path : Text) → In path paths → FileFits (disk.join root (disk.from_slash path)))
      → add_all_tracked disk root paths i ≡ ok j
      → IsSound i
      → IsSound j
  unfolding add_all_tracked add_tracked
  add_all_tracked-IsSound root [] i j small h s = subst IsSound (ground arith) s
  add_all_tracked-IsSound root (path ∷ paths) i j small h s =
      let (mid, one, rest) =
        and_then-ok (add_tracked disk root path i) (add_all_tracked disk root paths) j h in
      let full = disk.join root (disk.from_slash path) in
      add_all_tracked-IsSound root paths mid j (λ p m. small p (inr m)) rest
        (add_if_file-IsSound (disk.stat full) root full i mid (small path (inl refl)) one s)

  -- Where the files of HEAD that can be read have at most 2 ^ 31 - 1 bytes each, adding the tracked
  -- files of a repository, if it succeeds, keeps every instance in its object and every stated
  -- parent before its child.
  pub add_git_tracked_files-IsSound :
      (repo : Option Repository) (i j : ProtoIndex)
      → ((r : Repository) → repo ≡ some r → TrackedFit r)
      → add_git_tracked_files disk repo i ≡ ok j
      → IsSound i
      → IsSound j
  unfolding add_git_tracked_files
  add_git_tracked_files-IsSound none i j small h s = absurd (ground arith)
  add_git_tracked_files-IsSound (some repo) i j small h s =
      let (root, opened, h1) = and_then-ok (open_repository disk repo) _ j h in
      let (warned, told, h2) = and_then-ok (warn_if_dirty disk repo.clean_status) _ j h1 in
      let (paths, listed, h3) = and_then-ok (list_head_files disk.join repo.head) _ j h2 in
      add_all_tracked-IsSound root paths i j (small repo refl root paths opened listed) h3 s
