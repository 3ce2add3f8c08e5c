-- ===== src/Examples/Commits.antt =====
-- pkg/indexing/git_files.go on a commit with a directory and a file.
use askl_golang_indexer.Prelude.{
  ℕ, ◌≤◌, ◌≡◌, refl, ap, true, some, List, [], ◌∷◌, ◌++◌, arith, Text, length, ok, err,
}
use askl_golang_indexer.Prelude.Texts.{bytes}
use askl_golang_indexer.Prelude.Int.{max_int32}
use askl_golang_indexer.Index.State.{ProtoIndex, new_proto_index}
use askl_golang_indexer.Index.Sound.{IsSound}
use askl_golang_indexer.Index.SoundFiles.{new_proto_index-IsSound}
use askl_golang_indexer.Indexing.Paths.{is_file}
use askl_golang_indexer.Indexing.Git.{
  GitTree, no_entry, dir_entry, file_entry, Repository, Disk, head_tree, walk_tree,
  add_git_tracked_files,
}
use askl_golang_indexer.Indexing.Tracked.{
  listing, first_obstacle, paths_of, walk_tree-eq-listing, add_git_tracked_files-IsSound,
}

abbrev join : Text → Text → Text
join d name = d ++ 47 ∷ name

abbrev tree : GitTree
tree = dir_entry (bytes "p") (file_entry (bytes "b") no_entry) (file_entry (bytes "a") no_entry)

walked : walk_tree join tree [] [] ≡ ok (bytes "p/b" ∷ bytes "a" ∷ [])
unfolding walk_tree
walked = refl

walk_tree-eq-listing_example :
    walk_tree join tree [] []
    ≡ listing join (first_obstacle join [] tree) ([] ++ paths_of join [] tree)
walk_tree-eq-listing_example = walk_tree-eq-listing join tree [] []

abbrev disk : Disk
disk = record {
  abs = λ path. some path;
  join = join;
  from_slash = λ path. path;
  stat = λ path. is_file;
  read_file = λ path. some (bytes "x");
  clean = λ path. path;
  sha256 = λ contents. contents;
  lower_ext = λ path. [];
  detect_content_type = λ contents. bytes "text/plain";
  trim_space = λ text. text;
}

abbrev repository : Repository
repository = record {
  worktree = some (bytes "/r");
  clean_status = some true;
  head = head_tree tree;
}

small :
    (path : Text) (contents : List ℕ)
    → disk.read_file path ≡ some contents
    → length contents ≤ max_int32
small path contents e = short (value e)
  where
    value : some (bytes "x") ≡ some contents → bytes "x" ≡ contents
    value e = ground arith

    short : bytes "x" ≡ contents → length contents ≤ max_int32
    short e = omega (arith, ap length e)

abbrev start : ProtoIndex
start = new_proto_index (bytes "demo") (bytes "/r")

-- The index with both files.
abbrev tracked : ProtoIndex
tracked = elim (add_git_tracked_files disk (some repository) start) as (λ _. ProtoIndex) [
  | ok i ↦ i
  | err e ↦ start
]

added : add_git_tracked_files disk (some repository) start ≡ ok tracked
unfolding add_git_tracked_files
added = refl

add_git_tracked_files-IsSound_example : IsSound tracked
add_git_tracked_files-IsSound_example =
    add_git_tracked_files-IsSound disk (some repository) start tracked
      (λ r e root paths opened listed path m contents h. small (disk.join root path) contents h)
      added (new_proto_index-IsSound (bytes "demo") (bytes "/r"))
