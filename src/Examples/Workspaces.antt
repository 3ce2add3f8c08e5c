-- ===== src/Examples/Workspaces.antt =====
-- pkg/indexing/indexing.go on a small file system. A path is the list of its components, one byte
-- each, the innermost first: `cba` stands for /a/b/c, and the empty list for the root.
use askl_golang_indexer.Prelude.{
  ℕ, suc, ◌≤◌, ◌≡◌, refl, ◌∙◌, ap, sym, subst, ◌⊎◌, inl, inr, Bool, true, false, ◌||◌, some, [],
  ◌∷◌, arith, if◌then◌else◌, Text, text_beq, text_beq_iff, length, List, In, ok, err, or-cases,
}
use askl_golang_indexer.Prelude.Texts.{bytes}
use askl_golang_indexer.Indexing.Paths.{
  is_dir, is_file, not_exist, FileSystem, no_common_ancestor, has_glob_meta, find_go_mod,
  common_ancestor, expand_package_paths, group_package_paths, stays_inside, is_within_dir,
}
use askl_golang_indexer.Indexing.Expand.{
  DistinctTexts, IsDirectory, IsResolved, AreMatched, SourceOf, expand_package_paths_lem,
}
use askl_golang_indexer.Indexing.Ancestor.{
  up, Ends, Nests, IsLowest, common_ancestor-IsLowest, common_ancestor_total,
}
use askl_golang_indexer.Indexing.GoMod.{Found, find_go_mod_lem}
use askl_golang_indexer.Indexing.Groups.{Groups, group_package_paths-Groups}

abbrev parent : Text → Text
parent [] = []
parent (c ∷ p) = p

abbrev is_above : Text → Text → Bool
is_above d [] = text_beq d []
is_above d (c ∷ p) = text_beq d (c ∷ p) || is_above d p

-- There is one go.mod, in /a.
abbrev disk : FileSystem
disk = record {
  stat = λ path.
      if text_beq path (bytes "a")
      then is_dir
      else if text_beq path (bytes "ba")
      then is_dir
      else if text_beq path (bytes "ca")
      then is_dir
      else if text_beq path (bytes "Ma")
      then is_file
      else not_exist;
  abs = λ path. some path;
  glob = λ pattern. some (bytes "ba" ∷ bytes "Ma" ∷ []);
  clean = λ path. path;
  join = λ d name. 77 ∷ d;
  dir = parent;
  rel = λ base target. some (if is_above base target then bytes "." else bytes "../");
}

expanded :
    expand_package_paths disk (bytes "ba" ∷ bytes "*" ∷ bytes "ca" ∷ [])
    ≡ ok (bytes "ba" ∷ bytes "ca" ∷ [])
unfolding expand_package_paths
expanded = refl

expand_package_paths_lem_example :
    DistinctTexts (bytes "ba" ∷ bytes "ca" ∷ [])
    × ((t : Text)
        → In t (bytes "ba" ∷ bytes "ca" ∷ [])
        → IsDirectory disk (SourceOf disk (bytes "ba" ∷ bytes "*" ∷ bytes "ca" ∷ [])) t)
    × ((input : Text)
        → In input (bytes "ba" ∷ bytes "*" ∷ bytes "ca" ∷ [])
        → has_glob_meta input ≡ false
        → IsResolved disk (bytes "ba" ∷ bytes "ca" ∷ []) input)
    × ((input : Text) (matches : List Text)
        → In input (bytes "ba" ∷ bytes "*" ∷ bytes "ca" ∷ [])
        → has_glob_meta input ≡ true
        → disk.glob input ≡ some matches
        → AreMatched disk (bytes "ba" ∷ bytes "ca" ∷ []) matches)
expand_package_paths_lem_example =
    expand_package_paths_lem disk (bytes "ba" ∷ bytes "*" ∷ bytes "ca" ∷ [])
      (bytes "ba" ∷ bytes "ca" ∷ []) expanded

disk-Ends : Ends disk length
disk-Ends = record { climbs = shorter }
  where
    shorter : (p : Text) → (text_beq (parent p) p ≡ true) ⊎ (suc (length (parent p)) ≤ length p)
    shorter [] = inl refl
    shorter (c ∷ p) = inr (omega arith)

is_within : (c a : Text) → is_within_dir disk c a ≡ is_above a c
unfolding is_within_dir
is_within c a = inside (is_above a c)
  where
    inside : (b : Bool) → stays_inside (if b then bytes "." else bytes "../") ≡ b
    inside true = refl
    inside false = refl

is_above_refl : (p : Text) → is_above p p ≡ true
is_above_refl [] = refl
is_above_refl (c ∷ p) = ground (arith, (text_beq_iff p p).1 refl)

is_above_parent : (a p : Text) → is_above a p ≡ true → is_above (parent a) p ≡ true
is_above_parent [] p h = h
is_above_parent (x ∷ a) [] h = absurd (ground arith)
is_above_parent (x ∷ a) (y ∷ p) h =
    elim (or-cases (text_beq (x ∷ a) (y ∷ p)) (is_above (x ∷ a) p) h) [
      | inl e ↦ or_right (text_beq a (y ∷ p)) (same ((text_beq_iff (x ∷ a) (y ∷ p)).0 e))
      | inr k ↦ or_right (text_beq a (y ∷ p)) (is_above_parent (x ∷ a) p k)
    ]
  where
    or_right : (b : Bool) {c : Bool} → c ≡ true → (b || c) ≡ true
    or_right b e = ground arith

    same : (x ∷ a) ≡ (y ∷ p) → is_above a p ≡ true
    same e = subst (λ q. is_above a q ≡ true) (ap parent e) (is_above_refl a)

-- Every path of this file system is absolute and clean.
abbrev is_abs : Text → Bool
is_abs path = true

disk-Nests : Nests disk is_abs
disk-Nests = record {
  parent = λ a g. (refl, refl);
  self = λ a g. is_within a a ∙ is_above_refl a;
  above = λ c a g q h. is_within c (parent a) ∙ is_above_parent a c (sym (is_within c a) ∙ h);
}

found : find_go_mod disk 3 (bytes "ba") ≡ ok (bytes "Ma")
unfolding find_go_mod
found = refl

find_go_mod_lem_example : Found disk (bytes "ba") (find_go_mod disk 3 (bytes "ba"))
find_go_mod_lem_example = find_go_mod_lem disk length disk-Ends 3 (bytes "ba") (omega arith)

grouped :
    group_package_paths disk 3 (bytes "ba" ∷ bytes "ca" ∷ [])
    ≡ ok ((bytes "a", bytes "ba" ∷ bytes "ca" ∷ []) ∷ [], bytes "a" ∷ [])
unfolding group_package_paths
grouped = refl

group_package_paths-Groups_example :
    Groups disk 3
      (bytes "ba" ∷ bytes "ca" ∷ [])
      ((bytes "a", bytes "ba" ∷ bytes "ca" ∷ []) ∷ [], bytes "a" ∷ [])
group_package_paths-Groups_example =
    group_package_paths-Groups disk 3 (bytes "ba" ∷ bytes "ca" ∷ [])
      ((bytes "a", bytes "ba" ∷ bytes "ca" ∷ []) ∷ [], bytes "a" ∷ []) grouped

common : common_ancestor disk 3 (bytes "ba" ∷ bytes "ca" ∷ []) ≡ ok (bytes "a")
unfolding common_ancestor
common = refl

common_ancestor_total_example :
    (common_ancestor disk 3 (bytes "ba" ∷ bytes "ca" ∷ []) ≡ err no_common_ancestor)
    ⊎ ((out : Text) × (common_ancestor disk 3 (bytes "ba" ∷ bytes "ca" ∷ []) ≡ ok out))
common_ancestor_total_example =
    common_ancestor_total disk length disk-Ends 3 (bytes "ba") (bytes "ca" ∷ []) (omega arith)

common_ancestor-IsLowest_example :
    (k : ℕ) × (bytes "a" ≡ up disk k (bytes "ba"))
    × IsLowest disk (bytes "ba" ∷ bytes "ca" ∷ []) (bytes "ba") k
common_ancestor-IsLowest_example =
    common_ancestor-IsLowest disk is_abs disk-Nests 3 (bytes "ba") (bytes "a") (bytes "ca" ∷ [])
      (λ c m. (refl, refl)) common
