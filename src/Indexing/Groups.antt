-- ===== src/Indexing/Groups.antt =====
-- pkg/indexing/indexing.go: the groups by module root that `groupPackagePathsByModuleRoot` makes.
use askl_golang_indexer.Prelude.{
  ℕ, ◌≡◌, refl, ◌∙◌, ap, sym, subst, Bool, true, false, ◌||◌, Option, none, some, List, [], ◌∷◌,
  ◌++◌, arith, Text, text_beq, text_beq_iff, text_eq, Map, lookup, insert, lookup-insert, ok, err,
  and_then-ok, if◌then◌else◌,
}
use mathlib.Core.List.{append-nil, append_assoc}
use askl_golang_indexer.Index.Directories.{has_text}
use askl_golang_indexer.Index.Symbols.{listed}
use askl_golang_indexer.Indexing.Paths.{
  FileSystem, find_go_mod, group_known, group_at, group_loop, group_package_paths,
}
use askl_golang_indexer.Indexing.Expand.{DistinctTexts, DistinctTexts-append, has_text-append}

module _ (fs : FileSystem) (fuel : ℕ) where
  -- The module root of a path, where it has one.
  abbrev pub module_root : Text → Text
  module_root path = elim (find_go_mod fs fuel path) [ ok m ↦ fs.dir m | err e ↦ [] ]

  -- The paths under a root, in their order, and whether there are any.
  abbrev pub paths_under : Text → List Text → List Text
  paths_under root [] = []
  paths_under root (p ∷ paths) =
      if text_beq (module_root p) root then p ∷ paths_under root paths else paths_under root paths

  abbrev pub is_root_of : Text → List Text → Bool
  is_root_of root [] = false
  is_root_of root (p ∷ paths) = text_beq (module_root p) root || is_root_of root paths

  paths_under-append :
      (root : Text) (xs ys : List Text)
      → paths_under root (xs ++ ys) ≡ paths_under root xs ++ paths_under root ys
  paths_under-append root [] ys = refl
  paths_under-append root (x ∷ xs) ys = ground (arith, paths_under-append root xs ys)

  is_root_of-append :
      (root : Text) (xs ys : List Text)
      → is_root_of root (xs ++ ys) ≡ (is_root_of root xs || is_root_of root ys)
  is_root_of-append root [] ys = refl
  is_root_of-append root (x ∷ xs) ys = ground (arith, is_root_of-append root xs ys)

  -- `g` groups `paths`.
  pub record Groups (paths : List Text) (g : Map Text (List Text) × List Text) : Type 0 where
    pub lists : (root : Text) → listed (lookup root g.0) ≡ paths_under root paths
    pub roots : (root : Text) → has_text root g.1 ≡ is_root_of root paths
    pub distinct : DistinctTexts g.1

  abbrev is_some : Option (List Text) → Bool
  is_some none = false
  is_some (some _) = true

  record Grouping (paths : List Text) (g : Map Text (List Text) × List Text) : Type 0 where
    groups : Groups paths g
    keys : (root : Text) → has_text root g.1 ≡ is_some (lookup root g.0)

  -- One path more.
  paths_under-new :
      (r root path : Text) (paths : List Text)
      → module_root path ≡ root
      → paths_under r (paths ++ path ∷ [])
        ≡ (if text_beq root r then paths_under r paths ++ path ∷ [] else paths_under r paths)
  paths_under-new r root path paths m =
      paths_under-append r paths (path ∷ [])
      ∙ rw m (at_test (text_beq root r) (paths_under r paths))
    where
      at_test :
          (b : Bool) (u : List Text)
          → u ++ (if b then path ∷ [] else []) ≡ (if b then u ++ path ∷ [] else u)
      at_test true u = refl
      at_test false u = append-nil u

  is_root_of-new :
      (r root path : Text) (paths : List Text)
      → module_root path ≡ root
      → is_root_of r (paths ++ path ∷ []) ≡ (is_root_of r paths || text_beq root r)
  is_root_of-new r root path paths m =
      is_root_of-append r paths (path ∷ []) ∙ rw m (or_false (is_root_of r paths) (text_beq root r))
    where
      or_false : (a b : Bool) → (a || (b || false)) ≡ (a || b)
      or_false a b = ground arith

  has_text-new :
      (r root : Text) (xs : List Text)
      → has_text r (xs ++ root ∷ []) ≡ (has_text r xs || text_beq root r)
  unfolding has_text
  has_text-new r root xs = has_text-append r xs (root ∷ []) ∙ ground arith

  -- The list of the root grows by the path, whatever was there.
  lists_new :
      (paths : List Text) (path root : Text) (q : Option (List Text)) (m : Map Text (List Text))
      → module_root path ≡ root
      → lookup root m ≡ q
      → ((r : Text) → listed (lookup r m) ≡ paths_under r paths)
      → (r : Text)
      → listed (lookup r (insert root (listed q ++ path ∷ []) m))
        ≡ paths_under r (paths ++ path ∷ [])
  lists_new paths path root q m at_root e h r =
      ap listed (lookup-insert root r (listed q ++ path ∷ []) m)
      ∙ at_test (text_beq root r) refl
      ∙ sym (paths_under-new r root path paths at_root)
    where
      same : text_beq root r ≡ true → listed q ≡ paths_under r paths
      same t = ap listed (sym e) ∙ ap (λ x. listed (lookup x m)) ((text_beq_iff root r).0 t) ∙ h r

      at_test :
          (b : Bool)
          → text_beq root r ≡ b
          → listed (if b then some (listed q ++ path ∷ []) else lookup r m)
            ≡ (if b then paths_under r paths ++ path ∷ [] else paths_under r paths)
      at_test true t = ap (λ u. u ++ path ∷ []) (same t)
      at_test false t = h r

  keys_new :
      (root r : Text) (v : List Text) (m : Map Text (List Text))
      → is_some (lookup r (insert root v m)) ≡ (is_some (lookup r m) || text_beq root r)
  keys_new root r v m =
      ap is_some (lookup-insert root r v m) ∙ at_test (text_beq root r) (lookup r m)
    where
      at_test :
          (b : Bool) (o : Option (List Text)) → is_some (if b then some v else o) ≡ (is_some o || b)
      at_test true none = refl
      at_test true (some _) = refl
      at_test false none = refl
      at_test false (some _) = refl

  known_or :
      (b : Bool) (root r : Text) (m : Map Text (List Text))
      → is_some (lookup root m) ≡ true
      → text_beq root r ≡ b
      → (is_some (lookup r m) || b) ≡ is_some (lookup r m)
  known_or true root r m e t =
      rw (ap (λ x. is_some (lookup x m)) (sym ((text_beq_iff root r).0 t)) ∙ e) refl
  known_or false root r m e t = ground arith

  group_known-Grouping :
      (paths : List Text) (path root : Text) (q : Option (List Text))
      (g : Map Text (List Text) × List Text)
      → module_root path ≡ root
      → lookup root g.0 ≡ q
      → Grouping paths g
      → Grouping (paths ++ path ∷ []) (group_known fs path root q g)
  unfolding group_known
  group_known-Grouping paths path root none g m e h = record {
    groups = record {
      lists = lists_new paths path root none g.0 m e h.groups.lists;
      roots = λ r.
          has_text-new r root g.1
          ∙ ap (λ b. b || text_beq root r) (h.groups.roots r)
          ∙ sym (is_root_of-new r root path paths m);
      distinct = DistinctTexts-append g.1 root (h.keys root ∙ ap is_some e) h.groups.distinct;
    };
    keys = λ r.
        has_text-new r root g.1
        ∙ ap (λ b. b || text_beq root r) (h.keys r)
        ∙ sym (keys_new root r (path ∷ []) g.0);
  }
  group_known-Grouping paths path root (some known) g m e h =
      let there : is_some (lookup root g.0) ≡ true = ap is_some e in
      let old : (r : Text) → (has_text r g.1 || text_beq root r) ≡ has_text r g.1 = λ r.
        ap (λ b. b || text_beq root r) (h.keys r)
        ∙ known_or (text_beq root r) root r g.0 there refl
        ∙ sym (h.keys r) in
      record {
        groups = record {
          lists = lists_new paths path root (some known) g.0 m e h.groups.lists;
          roots = λ r.
              sym (old r)
              ∙ ap (λ b. b || text_beq root r) (h.groups.roots r)
              ∙ sym (is_root_of-new r root path paths m);
          distinct = h.groups.distinct;
        };
        keys = λ r.
            sym (old r)
            ∙ ap (λ b. b || text_beq root r) (h.keys r)
            ∙ sym (keys_new root r (known ++ path ∷ []) g.0);
      }

  group_loop-Grouping :
      (done paths : List Text) (g out : Map Text (List Text) × List Text)
      → group_loop fs fuel paths g ≡ ok out
      → Grouping done g
      → Grouping (done ++ paths) out
  unfolding group_loop group_at
  group_loop-Grouping done [] g out h k =
      subst (Grouping (done ++ [])) {x = g} {y = out} (ground arith) (rw (append-nil done) k)
  group_loop-Grouping done (path ∷ paths) g out h k =
      let (m, found, rest) = and_then-ok (find_go_mod fs fuel path) _ out h in
      let root : module_root path ≡ fs.dir m =
        ap (λ r. elim r as (λ _. Text) [ ok m ↦ fs.dir m | err e ↦ [] ]) found in
      subst (λ ps. Grouping ps out) (append_assoc done (path ∷ []) paths)
        (group_loop-Grouping (done ++ path ∷ []) paths _ out rest
          (group_known-Grouping done path (fs.dir m) (lookup (fs.dir m) g.0) g root refl k))

  -- Where every path has a go.mod, the paths are grouped as a filter would: under each root stand
  -- the paths of that module, in their order; the roots are those of the paths, each once.
  pub group_package_paths-Groups :
      (paths : List Text) (g : Map Text (List Text) × List Text)
      → group_package_paths fs fuel paths ≡ ok g
      → Groups paths g
  unfolding group_package_paths has_text
  group_package_paths-Groups paths g h = Grouping.groups (
      group_loop-Grouping [] paths ([], []) g h
        (record {
          groups = record { lists = λ r. refl; roots = λ r. refl; distinct = tt };
          keys = λ r. refl;
        }))
