-- ===== src/Indexing/Expand.antt =====
-- pkg/indexing/indexing.go, `expandPackagePaths`: what the resolved paths are.
use askl_golang_indexer.Prelude.{
  ◌≡◌, refl, ◌∙◌, ap, sym, ◌⊎◌, subst, inl, inr, Bool, true, false, ◌||◌, Option, none, some, List,
  [], ◌∷◌, ◌++◌, arith, Text, text_beq, text_beq_iff, ok, and_then-ok, In, In-left, In-right,
  In-append, Bool-cases,
}
use askl_golang_indexer.Index.Directories.{has_text}
use askl_golang_indexer.Indexing.Kept.{
  Covers, add_match-keeps, add_matches-keeps, add_input-keeps, expand_loop-keeps,
}
use askl_golang_indexer.Indexing.Paths.{
  Stat, is_dir, is_file, not_exist, stat_error, FileSystem, Visited, add_package_dir, add_if_dir,
  add_abs, add_package_path, match_if_dir, add_match, add_matches, check_added, add_glob, add_input,
  expand_loop, expand_package_paths, has_glob_meta,
}

pub has_text-append :
    (t : Text) (xs ys : List Text) → has_text t (xs ++ ys) ≡ (has_text t xs || has_text t ys)
unfolding has_text
has_text-append t [] ys = refl
has_text-append t (x ∷ xs) ys = ground (arith, has_text-append t xs ys)

In-of_has_text : (t : Text) (xs : List Text) → has_text t xs ≡ true → In t xs
unfolding has_text
In-of_has_text t [] h = absurd (ground arith)
In-of_has_text t (x ∷ xs) h = elim (Bool-cases (text_beq x t)) [
  | inl e ↦ inl ((text_beq_iff x t).0 e)
  | inr e ↦ inr (In-of_has_text t xs (ground arith))
]

-- No path stands twice.
abbrev pub DistinctTexts : List Text → Type 0
DistinctTexts [] = Unit
DistinctTexts (x ∷ xs) = (has_text x xs ≡ false) × DistinctTexts xs

pub DistinctTexts-append :
    (xs : List Text) (t : Text)
    → has_text t xs ≡ false
    → DistinctTexts xs
    → DistinctTexts (xs ++ t ∷ [])
unfolding has_text
DistinctTexts-append [] t h d = (refl, tt)
DistinctTexts-append (x ∷ xs) t h d = (
  ground (arith, has_text-append x xs (t ∷ []), text_beq_iff x t, text_beq_iff t x),
  DistinctTexts-append xs t (ground arith) d.1,
)

module _ (fs : FileSystem) where
  -- `t` is what filepath.Clean makes of the path that filepath.Abs gives for a source, and that path
  -- is a directory's.
  abbrev pub IsDirectory : (Text → Type 0) → Text → Type 0
  IsDirectory Known t =
      (source : Text) × (path : Text) × Known source
      × (fs.abs source ≡ some path)
      × (fs.stat path ≡ is_dir)
      × (t ≡ fs.clean path)

  -- An input that is no pattern names a directory, and its path is in the list.
  abbrev pub IsResolved : List Text → Text → Type 0
  IsResolved out input =
      (path : Text) × (fs.abs input ≡ some path) × (fs.stat path ≡ is_dir) × In (fs.clean path) out

  -- The path of each match that is a directory is in the list.
  abbrev pub AreMatched : List Text → List Text → Type 0
  AreMatched out ms =
      (m path : Text)
      → In m ms
      → fs.abs m ≡ some path
      → fs.stat path ≡ is_dir
      → In (fs.clean path) out

  add_package_dir-In :
      (t path : Text) (r : Visited) → In t r.resolved → In t (add_package_dir fs path r).resolved
  unfolding add_package_dir
  add_package_dir-In t path r m = elim (Bool-cases (has_text (fs.clean path) r.seen)) [
    | inl s ↦ rw s m
    | inr s ↦ rw s (In-left t r.resolved (fs.clean path ∷ []) m)
  ]

  module _ (Known : Text → Type 0) where
    -- `seen` is the set of the resolved paths.
    record IsTidy (r : Visited) : Type 0 where
      same : (t : Text) → has_text t r.resolved ≡ has_text t r.seen
      distinct : DistinctTexts r.resolved
      directories : (t : Text) → In t r.resolved → IsDirectory Known t

    add_package_dir-IsTidy :
        (source path : Text) (r : Visited)
        → Known source
        → fs.abs source ≡ some path
        → fs.stat path ≡ is_dir
        → IsTidy r
        → IsTidy (add_package_dir fs path r)
    unfolding add_package_dir
    add_package_dir-IsTidy source path r k a e h =
        elim (Bool-cases (has_text (fs.clean path) r.seen)) [
          | inl s ↦ rw s h
          | inr s ↦ rw s (record {
            same = λ t. has_text-append t r.resolved (fs.clean path ∷ []) ∙ with_new t (h.same t);
            distinct =
                DistinctTexts-append r.resolved (fs.clean path) (h.same (fs.clean path) ∙ s)
                  h.distinct;
            directories = λ t m. elim (In-append t r.resolved (fs.clean path ∷ []) m) [
              | inl l ↦ h.directories t l
              | inr (inl d) ↦ (source, path, k, a, e, sym d)
              | inr (inr n) ↦ absurd n
            ];
          })
        ]
      where
        with_new :
            (t : Text)
            → has_text t r.resolved ≡ has_text t r.seen
            → (has_text t r.resolved || has_text t (fs.clean path ∷ []))
              ≡ has_text t (fs.clean path ∷ r.seen)
        with_new t k = ground arith

    add_package_dir-new :
        (path : Text) (r : Visited)
        → IsTidy r
        → In (fs.clean path) (add_package_dir fs path r).resolved
    unfolding add_package_dir
    add_package_dir-new path r h = elim (Bool-cases (has_text (fs.clean path) r.seen)) [
      | inl s ↦ rw s (In-of_has_text (fs.clean path) r.resolved (h.same (fs.clean path) ∙ s))
      | inr s ↦ rw s (In-right (fs.clean path) r.resolved (fs.clean path ∷ []) (inl refl))
    ]

    plain_resolved :
        (input : Text) (r r' : Visited)
        → has_glob_meta input ≡ false
        → add_input fs input r ≡ ok r'
        → IsTidy r
        → IsResolved r'.resolved input
    unfolding add_input add_package_path
    plain_resolved input r r' e h p = at_abs (fs.abs input) refl (rw e at h)
      where
        at_stat :
            (path : Text) (st : Stat)
            → fs.abs input ≡ some path
            → fs.stat path ≡ st
            → add_if_dir fs st path r ≡ ok r'
            → IsResolved r'.resolved input
        at_stat path is_dir a s k = (
          path,
          a,
          s,
          subst (λ (v : Visited). In (fs.clean path) v.resolved) {x = add_package_dir fs path r}
              {y = r'} (ground arith) (add_package_dir-new path r p),
        )
        at_stat path is_file a s k = absurd (ground arith)
        at_stat path not_exist a s k = absurd (ground arith)
        at_stat path stat_error a s k = absurd (ground arith)

        at_abs :
            (o : Option Text)
            → fs.abs input ≡ o
            → add_abs fs o r ≡ ok r'
            → IsResolved r'.resolved input
        at_abs none a k = absurd (ground arith)
        at_abs (some path) a k = at_stat path (fs.stat path) a refl k

    keeps_member :
        (t source path : Text) (r : Visited)
        → Known source
        → fs.abs source ≡ some path
        → fs.stat path ≡ is_dir
        → In t r.resolved
        → In t (add_package_dir fs path r).resolved
    keeps_member t source path r k a e m = add_package_dir-In t path r m

    match_resolved :
        (m path : Text) (r : Visited) (out : Bool × Visited)
        → add_match fs (fs.abs m) r ≡ ok out
        → fs.abs m ≡ some path
        → fs.stat path ≡ is_dir
        → IsTidy r
        → In (fs.clean path) out.1.resolved
    match_resolved m path r out h a e p =
        let known : match_if_dir fs is_dir path r ≡ ok out =
          subst (λ st. match_if_dir fs st path r ≡ ok out) e
            (subst (λ o. add_match fs o r ≡ ok out) a h) in
        subst (λ (o : Bool × Visited). In (fs.clean path) o.1.resolved)
          {x = (true, add_package_dir fs path r)} {y = out} (ground arith)
          (add_package_dir-new path r p)

    matches_resolved :
        (ms : List Text) (s out : Bool × Visited)
        → ((m : Text) → In m ms → Known m)
        → add_matches fs ms s ≡ ok out
        → IsTidy s.1
        → AreMatched out.1.resolved ms
    unfolding add_matches
    matches_resolved [] s out k h p m path i a e = absurd i
    matches_resolved (n ∷ ms) (added, r) out k h p m path i a e =
        let (mid, one, rest) = and_then-ok (add_match fs (fs.abs n) r) _ out h in
        let tidy =
          add_match-keeps fs Known IsTidy add_package_dir-IsTidy (fs.abs n) n r mid (k n (inl refl))
            refl one p in
        elim i [
          | inl f ↦
              add_matches-keeps fs Known (λ v. In (fs.clean path) v.resolved)
                (keeps_member (fs.clean path)) ms (added || mid.0, mid.1) out (λ x j. k x (inr j))
                rest (match_resolved n path r mid one (ap fs.abs f ∙ a) e p)
          | inr j ↦
              matches_resolved ms (added || mid.0, mid.1) out (λ x y. k x (inr y)) rest tidy m path
                j a e
        ]

    glob_resolved :
        (ms : List Text) (r r' : Visited)
        → ((m : Text) → In m ms → Known m)
        → add_glob fs (some ms) r ≡ ok r'
        → IsTidy r
        → AreMatched r'.resolved ms
    glob_resolved [] r r' k h p n path i a e = absurd i
    glob_resolved (m ∷ ms) r r' k h p n path i a e =
        let (mid, one, rest) =
          and_then-ok (add_matches fs (m ∷ ms) (false, r)) (check_added fs) r' h in
        added_resolved mid rest (matches_resolved (m ∷ ms) (false, r) mid k one p n path i a e)
      where
        added_resolved :
            (s : Bool × Visited)
            → check_added fs s ≡ ok r'
            → In (fs.clean path) s.1.resolved
            → In (fs.clean path) r'.resolved
        added_resolved (true, v) h x =
            subst (λ (w : Visited). In (fs.clean path) w.resolved) {x = v} {y = r'} (ground arith) x
        added_resolved (false, v) h x = absurd (ground arith)

    pattern_resolved :
        (input : Text) (ms : List Text) (r r' : Visited)
        → Covers fs Known input
        → has_glob_meta input ≡ true
        → fs.glob input ≡ some ms
        → add_input fs input r ≡ ok r'
        → IsTidy r
        → AreMatched r'.resolved ms
    unfolding add_input
    pattern_resolved input ms r r' k e g h p =
        glob_resolved ms r r' (k.1 e ms g) (subst (λ o. add_glob fs o r ≡ ok r') g (rw e at h)) p

    -- What an input leaves in the list.
    abbrev IsServed : List Text → Text → Type 0
    IsServed out input =
        (has_glob_meta input ≡ false → IsResolved out input)
        × (has_glob_meta input ≡ true
            → (ms : List Text) → fs.glob input ≡ some ms
            → AreMatched out ms)

    loop_resolved :
        (inputs : List Text) (r r' : Visited)
        → ((input : Text) → In input inputs → Covers fs Known input)
        → expand_loop fs inputs r ≡ ok r'
        → IsTidy r
        → (input : Text) → In input inputs
        → IsServed r'.resolved input
    unfolding expand_loop
    loop_resolved [] r r' k h p input m = absurd m
    loop_resolved (i ∷ inputs) r r' k h p input m =
        let (mid, one, rest) = and_then-ok (add_input fs i r) (expand_loop fs inputs) r' h in
        let stays : (t : Text) → In t mid.resolved → In t r'.resolved = λ t.
          expand_loop-keeps fs Known (λ v. In t v.resolved) (keeps_member t) inputs mid r'
            (λ j n. k j (inr n)) rest in
        elim m [
          | inl e ↦
              let at_input : add_input fs input r ≡ ok mid =
                subst (λ j. add_input fs j r ≡ ok mid) e one in
              (
                λ g.
                    let (path, a, s, x) = plain_resolved input r mid g at_input p in
                    (path, a, s, stays (fs.clean path) x),
                λ g ms f n path j a s.
                    stays (fs.clean path) (
                      pattern_resolved input ms r mid (k input (inl e)) g f at_input p n path j a
                        s),
              )
          | inr n ↦
              loop_resolved inputs mid r' (λ j x. k j (inr x)) rest
                (add_input-keeps fs Known IsTidy add_package_dir-IsTidy i r mid (k i (inl refl)) one
                  p)
                input n
        ]

  -- An input that is no pattern, or a match of one that is.
  abbrev pub SourceOf : List Text → Text → Type 0
  SourceOf inputs source =
      (In source inputs × (has_glob_meta source ≡ false))
      ⊎ ((pattern : Text) × (matches : List Text) × In pattern inputs
          × (has_glob_meta pattern ≡ true)
          × (fs.glob pattern ≡ some matches)
          × In source matches)

  -- Where the inputs resolve: no path stands twice; every path is what filepath.Abs and
  -- filepath.Clean make of an input that is no pattern or of a match of a pattern, and a directory's;
  -- every input that is no pattern names a directory whose path is there; and so is the path of every
  -- match of a pattern that is a directory.
  pub expand_package_paths_lem :
      (inputs out : List Text)
      → expand_package_paths fs inputs ≡ ok out
      → DistinctTexts out
        × ((t : Text) → In t out → IsDirectory (SourceOf inputs) t)
        × ((input : Text) → In input inputs → has_glob_meta input ≡ false → IsResolved out input)
        × ((input : Text) (matches : List Text)
            → In input inputs
            → has_glob_meta input ≡ true
            → fs.glob input ≡ some matches
            → AreMatched out matches)
  unfolding expand_package_paths
  expand_package_paths_lem inputs out h =
      let Known = SourceOf inputs in
      let covers : (input : Text) → In input inputs → Covers fs Known input =
        λ input m. (λ g. inl (m, g), λ g ms f n i. inr (input, ms, m, g, f, i)) in
      let (r, run, e) =
        and_then-ok (expand_loop fs inputs (record { resolved = []; seen = [] })) _ out h in
      let start : IsTidy Known (record { resolved = []; seen = [] }) = record {
        same = λ t. refl;
        distinct = tt;
        directories = λ t m. absurd m;
      } in
      let tidy =
        expand_loop-keeps fs Known (IsTidy Known) (add_package_dir-IsTidy Known) inputs _ r covers
          run start in
      let served = loop_resolved Known inputs _ r covers run start in
      let same : r.resolved ≡ out = ground arith in
      rw (sym same) (
        tidy.distinct,
        tidy.directories,
        λ input m. (served input m).0,
        λ input ms m g. (served input m).1 g ms,
      )
