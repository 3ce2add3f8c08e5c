-- ===== src/Indexing/Paths.antt =====
-- pkg/indexing/indexing.go: the package paths, their module roots and their common ancestor.
use askl_golang_indexer.Prelude.{
  ℕ, zero, suc, Bool, true, false, ◌==◌, ◌||◌, Option, none, some, List, [], ◌∷◌, ◌++◌,
  if◌then◌else◌, Text, text_beq, text_eq, Map, lookup, insert, Result, ok, err, and_then,
}
use askl_golang_indexer.Prelude.Texts.{bytes, has_prefix}
use askl_golang_indexer.Index.Directories.{has_text}

-- What `os.Stat` says of a path.
pub data Stat : Type 0 where
  is_dir is_file not_exist stat_error : Stat

-- `os.Stat` and the functions of path/filepath; `none` is an error.
pub record FileSystem : Type 0 where
  pub stat : Text → Stat
  pub abs : Text → Option Text
  pub glob : Text → Option (List Text)
  pub clean : Text → Text
  pub join : Text → Text → Text
  pub dir : Text → Text
  pub rel : Text → Text → Option Text

pub data PathError : Type 0 where
  abs_failed stat_failed not_a_directory invalid_glob no_match no_directory_match : PathError
  mod_unreadable no_go_mod no_paths no_common_ancestor out_of_fuel : PathError

-- `resolved` and `seen`
pub record Visited : Type 0 where
  pub resolved : List Text
  pub seen : List Text

-- `strings.ContainsAny(value, "*?[")`
unfoldable pub has_glob_meta : Text → Bool
has_glob_meta [] = false
has_glob_meta (c ∷ s) = (c == b'*' || (c == b'?' || c == b'[')) || has_glob_meta s

-- `rel == "."`, or neither `..` nor below it
abbrev pub stays_inside : Text → Bool
stays_inside r =
    if text_beq r (bytes ".")
    then true
    else if has_prefix r (bytes "../")
    then false
    else if text_beq r (bytes "..")
    then false
    else true

module _ (fs : FileSystem) where
  unfoldable pub add_package_dir : Text → Visited → Visited
  unfolding has_text
  add_package_dir abs_path r =
      let path = fs.clean abs_path in
      if has_text path r.seen
      then r
      else record { resolved = r.resolved ++ path ∷ []; seen = path ∷ r.seen }

  abbrev pub add_if_dir : Stat → Text → Visited → Result PathError Visited
  add_if_dir is_dir path r = ok (add_package_dir path r)
  add_if_dir is_file path r = err not_a_directory
  add_if_dir not_exist path r = err stat_failed
  add_if_dir stat_error path r = err stat_failed

  abbrev pub add_abs : Option Text → Visited → Result PathError Visited
  add_abs none r = err abs_failed
  add_abs (some path) r = add_if_dir (fs.stat path) path r

  unfoldable pub add_package_path : Text → Visited → Result PathError Visited
  unfolding add_package_dir
  add_package_path input r = add_abs (fs.abs input) r

  abbrev pub match_if_dir : Stat → Text → Visited → Result PathError (Bool × Visited)
  match_if_dir is_dir path r = ok (true, add_package_dir path r)
  match_if_dir is_file path r = ok (false, r)
  match_if_dir not_exist path r = err stat_failed
  match_if_dir stat_error path r = err stat_failed

  -- One match of a glob; a match that is no directory is passed over.
  abbrev pub add_match : Option Text → Visited → Result PathError (Bool × Visited)
  add_match none r = err abs_failed
  add_match (some path) r = match_if_dir (fs.stat path) path r

  -- `added`, and what has been visited
  unfoldable pub add_matches : List Text → Bool × Visited → Result PathError (Bool × Visited)
  unfolding add_package_dir
  add_matches [] s = ok s
  add_matches (m ∷ matches) (added, r) =
      and_then (add_match (fs.abs m) r) (λ out. add_matches matches (added || out.0, out.1))

  abbrev pub check_added : Bool × Visited → Result PathError Visited
  check_added (true, r) = ok r
  check_added (false, r) = err no_directory_match

  abbrev pub add_glob : Option (List Text) → Visited → Result PathError Visited
  add_glob none r = err invalid_glob
  add_glob (some []) r = err no_match
  add_glob (some (m ∷ matches)) r = and_then (add_matches (m ∷ matches) (false, r)) check_added

  unfoldable pub add_input : Text → Visited → Result PathError Visited
  unfolding add_matches add_package_path has_glob_meta
  add_input input r =
      if has_glob_meta input then add_glob (fs.glob input) r else add_package_path input r

  unfoldable pub expand_loop : List Text → Visited → Result PathError Visited
  unfolding add_input
  expand_loop [] r = ok r
  expand_loop (input ∷ inputs) r = and_then (add_input input r) (expand_loop inputs)

  unfoldable pub expand_package_paths : List Text → Result PathError (List Text)
  unfolding expand_loop
  expand_package_paths inputs =
      and_then (expand_loop inputs (record { resolved = []; seen = [] })) (λ r. ok r.resolved)

  -- `if len(inputs) == 0 { inputs = []string{"."} }`
  abbrev pub or_here : List Text → List Text
  or_here [] = bytes "." ∷ []
  or_here (input ∷ inputs) = input ∷ inputs

  unfoldable pub resolve_package_paths : List Text → List Text → Result PathError (List Text)
  unfolding expand_package_paths
  resolve_package_paths flag_paths args = expand_package_paths (or_here (flag_paths ++ args))

  -- The loop of `findGoModPath`, on fuel.
  unfoldable pub find_go_mod : ℕ → Text → Result PathError Text
  find_go_mod zero cur = err out_of_fuel
  find_go_mod (suc fuel) cur =
      let rest = find_go_mod fuel (fs.dir cur) in
      elim (fs.stat (fs.join cur (bytes "go.mod"))) [
        | is_dir ↦ ok (fs.join cur (bytes "go.mod"))
        | is_file ↦ ok (fs.join cur (bytes "go.mod"))
        | stat_error ↦ err mod_unreadable
        | not_exist ↦ if text_beq (fs.dir cur) cur then err no_go_mod else rest
      ]

  unfoldable pub is_within_dir : Text → Text → Bool
  is_within_dir candidate dir = elim (fs.rel dir candidate) [
    | none ↦ false
    | some r ↦ stays_inside r
  ]

  -- The inner loop of `commonAncestor` for one candidate, on fuel.
  unfoldable pub climb : ℕ → Text → Text → Result PathError Text
  unfolding is_within_dir
  climb zero candidate ancestor = err out_of_fuel
  climb (suc fuel) candidate ancestor =
      let rest = climb fuel candidate (fs.dir ancestor) in
      if is_within_dir candidate ancestor
      then ok ancestor
      else if text_beq (fs.dir ancestor) ancestor
      then err no_common_ancestor
      else rest

  unfoldable pub climb_all : ℕ → List Text → Text → Result PathError Text
  unfolding climb
  climb_all fuel [] ancestor = ok ancestor
  climb_all fuel (candidate ∷ paths) ancestor =
      and_then (climb fuel candidate ancestor) (climb_all fuel paths)

  unfoldable pub common_ancestor : ℕ → List Text → Result PathError Text
  unfolding climb_all
  common_ancestor fuel [] = err no_paths
  common_ancestor fuel (path ∷ paths) = climb_all fuel paths path

  abbrev pub root_at : Option Text → Result PathError Text
  root_at none = err abs_failed
  root_at (some root) = elim (fs.stat root) [
    | is_dir ↦ ok (fs.clean root)
    | is_file ↦ err not_a_directory
    | not_exist ↦ err stat_failed
    | stat_error ↦ err stat_failed
  ]

  unfoldable pub resolve_root_path : ℕ → Text → List Text → Result PathError Text
  unfolding common_ancestor
  resolve_root_path fuel [] paths = common_ancestor fuel paths
  resolve_root_path fuel (c ∷ root_flag) paths = root_at (fs.abs (c ∷ root_flag))

  -- `byRoot` and `order`, for a root that is new or known
  unfoldable pub group_known :
      Text
      → Text
      → Option (List Text)
      → Map Text (List Text) × List Text
      → Map Text (List Text) × List Text
  group_known path root none g = (insert root (path ∷ []) g.0, g.1 ++ root ∷ [])
  group_known path root (some paths) g = (insert root (paths ++ path ∷ []) g.0, g.1)

  unfoldable pub group_at :
      Text → Text → Map Text (List Text) × List Text → Map Text (List Text) × List Text
  unfolding group_known
  group_at path root g = group_known path root (lookup root g.0) g

  unfoldable pub group_loop :
      ℕ
      → List Text
      → Map Text (List Text) × List Text
      → Result PathError (Map Text (List Text) × List Text)
  unfolding find_go_mod group_at
  group_loop fuel [] g = ok g
  group_loop fuel (path ∷ paths) g =
      and_then (find_go_mod fuel path)
        (λ go_mod. group_loop fuel paths (group_at path (fs.dir go_mod) g))

  unfoldable pub group_package_paths :
      ℕ → List Text → Result PathError (Map Text (List Text) × List Text)
  unfolding group_loop
  group_package_paths fuel paths = group_loop fuel paths ([], [])
