-- ===== src/Indexing/Git.antt =====
-- pkg/indexing/git_files.go: the files of the HEAD tree, and their way into the index. go-git opens
-- the repository and its trees, which are given here as they are found.
use askl_golang_indexer.Prelude.{
  ℕ, Bool, not, Option, none, some, List, [], ◌∷◌, ◌++◌, if◌then◌else◌, Text, Result, ok, err,
  and_then,
}
use askl_golang_indexer.Prelude.Int.{ltb_ℤ, pos}
use askl_golang_indexer.Index.State.{ProtoIndex}
use askl_golang_indexer.Index.Files.{Outcome, done, failed, Failure, add_file}
use askl_golang_indexer.Index.Filetype.{guess_file_type}
use askl_golang_indexer.Index.Decls.{compare_text}
use askl_golang_indexer.Indexing.Paths.{Stat, is_dir, is_file, not_exist, stat_error}

-- The entries of a tree, by their mode. A directory whose tree cannot be opened is `lost`; all
-- other modes are files.
pub data GitTree : Type 0 where
  no_entry : GitTree
  dir_entry : (name : Text) → GitTree → GitTree → GitTree
  lost_entry : (name : Text) → GitTree → GitTree
  submodule_entry : (name : Text) → GitTree → GitTree
  file_entry : (name : Text) → GitTree → GitTree

pub data GitError : Type 0 where
  open_failed no_worktree no_root root_failed status_failed head_failed commit_failed no_tree :
      GitError
  tree_failed : Text → GitError
  submodule_at : Text → GitError
  missing_on_disk : Text → GitError
  read_failed : Text → GitError
  index_failed : Failure → GitError

-- `path.Join(prefix, entry.Name)`, where there is a prefix
abbrev pub entry_path : (Text → Text → Text) → Text → Text → Text
entry_path join [] name = name
entry_path join (c ∷ prefix) name = join (c ∷ prefix) name

-- `walkTree`: the files that are listed, after those before.
unfoldable pub walk_tree :
    (Text → Text → Text) → GitTree → Text → List Text → Result GitError (List Text)
walk_tree join no_entry prefix files = ok files
walk_tree join (dir_entry name subtree rest) prefix files =
    and_then (walk_tree join subtree (entry_path join prefix name) files)
      (λ listed. walk_tree join rest prefix listed)
walk_tree join (lost_entry name rest) prefix files = err (tree_failed (entry_path join prefix name))
walk_tree join (submodule_entry name rest) prefix files =
    err (submodule_at (entry_path join prefix name))
walk_tree join (file_entry name rest) prefix files =
    walk_tree join rest prefix (files ++ entry_path join prefix name ∷ [])

-- `sort.Strings`: ascending by bytes
unfoldable pub insert_text : Text → List Text → List Text
insert_text t [] = t ∷ []
insert_text t (u ∷ texts) =
    if ltb_ℤ (compare_text u t) (pos 0) then u ∷ insert_text t texts else t ∷ u ∷ texts

unfoldable pub sort_texts : List Text → List Text
unfolding insert_text
sort_texts [] = []
sort_texts (t ∷ texts) = insert_text t (sort_texts texts)

-- What go-git gives for HEAD: no reference, no commit for it, no tree of the commit, or the tree.
pub data Head : Type 0 where
  no_head no_commit no_head_tree : Head
  head_tree : GitTree → Head

-- `listHeadFiles`
unfoldable pub list_head_files : (Text → Text → Text) → Head → Result GitError (List Text)
unfolding walk_tree sort_texts
list_head_files join no_head = err head_failed
list_head_files join no_commit = err commit_failed
list_head_files join no_head_tree = err no_tree
list_head_files join (head_tree tree) =
    and_then (walk_tree join tree [] []) (λ files. ok (sort_texts files))

-- A repository as go-git opens it: the root of its worktree, or none where there is no worktree;
-- whether its status is clean, or none where it cannot be read; and HEAD.
pub record Repository : Type 0 where
  pub worktree : Option Text
  pub clean_status : Option Bool
  pub head : Head

-- The calls that the loop over the tracked files makes.
pub record Disk : Type 0 where
  pub abs : Text → Option Text
  pub join : Text → Text → Text
  pub from_slash : Text → Text
  pub stat : Text → Stat
  pub read_file : Text → Option (List ℕ)
  pub clean : Text → Text
  pub sha256 : List ℕ → List ℕ
  pub lower_ext : Text → Text
  pub detect_content_type : List ℕ → Text
  pub trim_space : Text → Text

module _ (disk : Disk) where
  abbrev pub indexed : Outcome ℕ × ProtoIndex → Result GitError ProtoIndex
  indexed (done id, i) = ok i
  indexed (failed e, i) = err (index_failed e)

  unfoldable pub add_contents :
      Text → Text → Option (List ℕ) → ProtoIndex → Result GitError ProtoIndex
  unfolding guess_file_type add_file
  add_contents root path none i = err (read_failed path)
  add_contents root path (some contents) i = indexed (
      add_file disk.clean disk.sha256 none root path
        (guess_file_type disk.lower_ext disk.detect_content_type disk.trim_space path contents)
        contents i)

  abbrev pub add_if_file : Stat → Text → Text → ProtoIndex → Result GitError ProtoIndex
  add_if_file is_dir root path i = ok i
  add_if_file is_file root path i = add_contents root path (disk.read_file path) i
  add_if_file not_exist root path i = err (missing_on_disk path)
  add_if_file stat_error root path i = err (missing_on_disk path)

  -- The body of the loop; a tracked path that is a directory is passed over.
  unfoldable pub add_tracked : Text → Text → ProtoIndex → Result GitError ProtoIndex
  unfolding add_contents
  add_tracked root rel_path i =
      let path = disk.join root (disk.from_slash rel_path) in
      add_if_file (disk.stat path) root path i

  unfoldable pub add_all_tracked : Text → List Text → ProtoIndex → Result GitError ProtoIndex
  unfolding add_tracked
  add_all_tracked root [] i = ok i
  add_all_tracked root (rel_path ∷ paths) i =
      and_then (add_tracked root rel_path i) (add_all_tracked root paths)

  abbrev pub abs_root : Option Text → Result GitError Text
  abs_root none = err root_failed
  abs_root (some root) = ok root

  abbrev pub root_of : Option Text → Result GitError Text
  root_of none = err no_worktree
  root_of (some []) = err no_root
  root_of (some (c ∷ root)) = abs_root (disk.abs (c ∷ root))

  -- `openRepository`: the root
  abbrev pub open_repository : Repository → Result GitError Text
  open_repository repo = root_of repo.worktree

  -- `warnIfDirty`: whether it warns
  abbrev pub warn_if_dirty : Option Bool → Result GitError Bool
  warn_if_dirty none = err status_failed
  warn_if_dirty (some clean) = ok (not clean)

  unfoldable pub add_git_tracked_files : Option Repository → ProtoIndex → Result GitError ProtoIndex
  unfolding list_head_files add_all_tracked
  add_git_tracked_files none i = err open_failed
  add_git_tracked_files (some repo) i = and_then (open_repository repo) (λ root.
      and_then (warn_if_dirty repo.clean_status) (λ warned.
        and_then (list_head_files disk.join repo.head) (λ paths. add_all_tracked root paths i)))
