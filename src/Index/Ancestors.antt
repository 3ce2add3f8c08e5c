-- ===== src/Index/Ancestors.antt =====
-- pkg/index/proto_index.go, `createDirectorySymbols`: its inner loop ends, and it runs once.
use mathlib.Core.List.{reverse, reverse_aux}
use askl_golang_indexer.Prelude.{
  ℕ, zero, suc, ◌+◌, ◌≤◌, ◌≡◌, refl, ◌∙◌, ap, ◌⊎◌, inl, inr, true, false, Option, none, some, List,
  [], ◌∷◌, arith, length, Text, text_beq, Map, Bool-cases,
}
use askl_golang_indexer.Prelude.Texts.{trim_left, after_first}
use askl_golang_indexer.Proto.{Object}
use askl_golang_indexer.Index.State.{ProtoIndex}
use askl_golang_indexer.Index.Directories.{
  slash, root, or_root, parent_dir, add_once, add_ancestors, collect_dirs, create_directory_symbols,
  create_from, create_directories, create_directory, contain_files, refer_children, Directories,
  write_at, containment_of, child_ref, minted,
}

length-reverse_aux : (xs ys : Text) → length (reverse_aux xs ys) ≡ length xs + length ys
length-reverse_aux [] ys = omega arith
length-reverse_aux (x ∷ xs) ys = omega (arith, length-reverse_aux xs (x ∷ ys))

length-reverse : (xs : Text) → length (reverse xs) ≡ length xs
length-reverse xs = omega (arith, length-reverse_aux xs [])

length-trim_left : (b : ℕ) (s : Text) → length (trim_left b s) ≤ length s
length-trim_left b [] = omega arith
length-trim_left b (c ∷ s) = ground (arith, length-trim_left b s)

shorter : (b : ℕ) (s t : Text) → after_first b s ≡ some t → suc (length t) ≤ length s
shorter b [] t h = absurd (ground arith)
shorter b (c ∷ s) t h = ground (arith, shorter b s t)

or_root_cases :
    (o : Option Text)
    → (or_root o ≡ root) ⊎ ((t : Text) × (o ≡ some t) × (length (or_root o) ≡ length t))
or_root_cases none = inl refl
or_root_cases (some []) = inl refl
or_root_cases (some (c ∷ s)) = inr (c ∷ s, refl, length-reverse (c ∷ s))

-- A parent directory is the root or shorter than the path.
parent_dir-cases :
    (path : Text) → (parent_dir path ≡ root) ⊎ (suc (length (parent_dir path)) ≤ length path)
unfolding parent_dir
parent_dir-cases path = elim (Bool-cases (text_beq path root)) [
  | inl e ↦ inl (rw e refl)
  | inr e ↦ elim (or_root_cases (after_first slash (trim_left slash (reverse path)))) [
    | inl r ↦ inl (rw (e, r) refl)
    | inr (t, f, l) ↦ inr (
        rw (e, l)
          (omega (
            arith,
            shorter slash (trim_left slash (reverse path)) t f,
            length-trim_left slash (reverse path),
            length-reverse path,
          )))
  ]
]

add_ancestors_stop :
    (fuel : ℕ) (dir : Text) (dirs : List Text)
    → text_beq dir root ≡ true
    → add_ancestors (suc fuel) dir dirs ≡ some (add_once dir dirs)
unfolding add_ancestors
add_ancestors_stop fuel dir dirs e = rw e refl

add_ancestors_step :
    (fuel : ℕ) (dir : Text) (dirs : List Text)
    → text_beq dir root ≡ false
    → add_ancestors (suc fuel) dir dirs ≡ add_ancestors fuel (parent_dir dir) (add_once dir dirs)
unfolding add_ancestors
add_ancestors_step fuel dir dirs e = rw e refl

add_ancestors_total :
    (fuel : ℕ) (dir : Text) (dirs : List Text)
    → length dir + 2 ≤ fuel
    → (found : List Text) × (add_ancestors fuel dir dirs ≡ some found)
add_ancestors_total zero dir dirs h = absurd (omega (arith, h))
add_ancestors_total (suc zero) dir dirs h = absurd (omega (arith, h))
add_ancestors_total (suc (suc fuel)) dir dirs h = elim (Bool-cases (text_beq dir root)) [
  | inl e ↦ (add_once dir dirs, add_ancestors_stop (suc fuel) dir dirs e)
  | inr e ↦ elim (parent_dir-cases dir) [
    | inl r ↦ (
      add_once root (add_once dir dirs),
      add_ancestors_step (suc fuel) dir dirs e
          ∙ ap (λ d. add_ancestors (suc fuel) d (add_once dir dirs)) r
          ∙ add_ancestors_stop fuel root (add_once dir dirs) refl,
    )
    | inr l ↦
        let (found, run) =
          add_ancestors_total (suc fuel) (parent_dir dir) (add_once dir dirs)
            (omega (arith, l, h)) in
        (found, add_ancestors_step (suc fuel) dir dirs e ∙ run)
  ]
]

parent_dir_short : (path : Text) → length (parent_dir path) + 2 ≤ length path + 3
parent_dir_short path = elim (parent_dir-cases path) [
  | inl r ↦ rw r (omega arith)
  | inr l ↦ omega (arith, l)
]

collect_dirs_step :
    (id : ℕ) (path : Text) (paths : Map ℕ Text) (dirs one : List Text)
    → add_ancestors (length path + 3) (parent_dir path) dirs ≡ some one
    → collect_dirs ((id, path) ∷ paths) dirs ≡ collect_dirs paths one
unfolding collect_dirs
collect_dirs_step id path paths dirs one run = rw (run, collect_dirs) refl

collect_dirs_total :
    (paths : Map ℕ Text) (dirs : List Text)
    → (found : List Text) × (collect_dirs paths dirs ≡ some found)
collect_dirs_total [] dirs = (dirs, unfold collect_dirs in refl)
collect_dirs_total ((id, path) ∷ paths) dirs =
    let (one, run) =
      add_ancestors_total (length path + 3) (parent_dir path) dirs (parent_dir_short path) in
    let (found, rest) = collect_dirs_total paths one in
    (found, collect_dirs_step id path paths dirs one run ∙ rest)

-- The flag stays, whatever the steps write.
flag_write_at :
    (w : Option (ℕ × (Object → Object))) (i : ProtoIndex)
    → (write_at w i).directory_symbols_created ≡ i.directory_symbols_created
flag_write_at none i = refl
flag_write_at (some (p, f)) i = refl

flag_contain_files :
    (symbols : Map Text ℕ) (paths : Map ℕ Text) (i : ProtoIndex)
    → (contain_files symbols paths i).directory_symbols_created ≡ i.directory_symbols_created
unfolding contain_files
flag_contain_files symbols [] i = refl
flag_contain_files symbols ((id, path) ∷ paths) i =
    flag_contain_files symbols paths (write_at (containment_of symbols id path i) i)
    ∙ flag_write_at (containment_of symbols id path i) i

flag_refer_children :
    (d : Directories) (dirs : List Text) (i : ProtoIndex)
    → (refer_children d dirs i).directory_symbols_created ≡ i.directory_symbols_created
unfolding refer_children
flag_refer_children d [] i = refl
flag_refer_children d (child ∷ dirs) i =
    flag_refer_children d dirs (write_at (child_ref d child) i)
    ∙ flag_write_at (child_ref d child) i

flag_create_directories :
    (dirs : List Text) (d : Directories)
    → (create_directories dirs d).index.directory_symbols_created
      ≡ d.index.directory_symbols_created
unfolding create_directories create_directory
flag_create_directories [] d = refl
flag_create_directories (dir ∷ dirs) d = flag_create_directories dirs (create_directory dir d)

flag_minted :
    (dirs : List Text) (i : ProtoIndex) → (minted dirs i).index.directory_symbols_created ≡ true
unfolding minted
flag_minted dirs i =
    flag_create_directories dirs (record {
      index = record i { directory_symbols_created = true };
      symbols = [];
      sentinels = [];
    })

flag_create_from :
    (dir : Text) (dirs : List Text) (i : ProtoIndex)
    → (create_from (dir ∷ dirs) i).directory_symbols_created ≡ true
unfolding create_from
flag_create_from dir dirs i =
    let d = minted (dir ∷ dirs) i in
    flag_refer_children d (dir ∷ dirs) (contain_files d.symbols i.file_path_by_id d.index)
    ∙ flag_contain_files d.symbols i.file_path_by_id d.index
    ∙ flag_minted (dir ∷ dirs) i

-- A call with the flag set changes nothing.
create_set :
    (i : ProtoIndex) → i.directory_symbols_created ≡ true → create_directory_symbols i ≡ some i
unfolding create_directory_symbols
create_set i e = rw e refl

create_unset :
    (i : ProtoIndex) (dirs : List Text)
    → i.directory_symbols_created ≡ false
    → collect_dirs i.file_path_by_id [] ≡ some dirs
    → create_directory_symbols i ≡ some (create_from dirs i)
unfolding create_directory_symbols
create_unset i dirs e c = ground arith

create_from_again :
    (dirs : List Text) (i : ProtoIndex)
    → i.directory_symbols_created ≡ false
    → collect_dirs i.file_path_by_id [] ≡ some dirs
    → create_directory_symbols (create_from dirs i) ≡ some (create_from dirs i)
create_from_again [] i e c = unfold create_from in create_unset i [] e c
create_from_again (dir ∷ dirs) i e c = create_set _ (flag_create_from dir dirs i)

-- Creating the directory symbols always ends, whatever the paths are, and a second call changes
-- nothing: no directory gets a second symbol, sentinel or containment instance.
pub create_directory_symbols_once :
    (i : ProtoIndex)
    → (j : ProtoIndex) × (create_directory_symbols i ≡ some j)
      × (create_directory_symbols j ≡ some j)
create_directory_symbols_once i = elim (Bool-cases i.directory_symbols_created) [
  | inl e ↦ (i, create_set i e, create_set i e)
  | inr e ↦
      let (dirs, c) = collect_dirs_total i.file_path_by_id [] in
      (create_from dirs i, create_unset i dirs e c, create_from_again dirs i e c)
]
