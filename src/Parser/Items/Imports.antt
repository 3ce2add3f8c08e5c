-- ===== src/Parser/Items/Imports.antt =====
-- pkg/parser/package_parser.go and assignment_stage.go: a stage that ends without an error has parsed
-- all imports.
use askl_golang_indexer.Prelude.{
  ℕ, ◌≡◌, refl, ◌∙◌, ap, sym, subst, ◌⊎◌, inl, inr, Bool, Option, none, some, List, [], ◌∷◌, map,
  arith, Text, In, In-right,
}
use askl_golang_indexer.Parser.Stage.{Parsable, StageState, Reach, IsQuiet, wait}
use askl_golang_indexer.Parser.Stage.Complete.{IsComplete, errors_of, quiet-IsComplete}
use askl_golang_indexer.Parser.Packages.{Package}
use askl_golang_indexer.Parser.Items.{
  Item, package_item, file_item, Submission, files_of, with_imports, assignment_parse,
  package_parse, id_of_item, package_stage, assignment_stage,
}

module _ (packages : ℕ → Package) where
  -- `k` is `h`, or imported by it, directly or not.
  pub data Imported (h : ℕ) : ℕ → Type 0 where
    itself : Imported h h
    by_import : {k c : ℕ} → Imported h k → In c (packages k).imports → Imported h c

  -- Packages with one ID import packages with the same IDs: go/packages documents the ID as a unique
  -- identifier of the package.
  abbrev pub SameImports : Type 0
  SameImports =
      (h k c : ℕ)
      → (packages h).id ≡ (packages k).id
      → In c (packages h).imports
      → (d : ℕ) × In d (packages k).imports × ((packages d).id ≡ (packages c).id)

  -- The package, or one with its ID, was parsed.
  abbrev pub IsParsed : StageState Item → ℕ → Type 0
  IsParsed s k = (b : ℕ) × In (package_item b) s.begun × ((packages b).id ≡ (packages k).id)

  -- A file was parsed whose path is the ID of the package: the stage takes the one for the other.
  abbrev pub IsMistaken : (Package → List Text) → StageState Item → ℕ → Type 0
  IsMistaken files s k =
      (b : ℕ) × (n : ℕ) × In (file_item b n) s.begun
      × (id_of_item packages files (file_item b n) ≡ some (packages k).id)

  same_text : {a b : Text} → ◌≡◌ {A = Option Text} (some a) (some b) → a ≡ b
  same_text e = ground arith

  In-package_item :
      (c : ℕ) (imports : List ℕ) → In c imports → In (package_item c) (map package_item imports)
  In-package_item c [] m = absurd m
  In-package_item c (k ∷ imports) (inl e) = inl (ap package_item e)
  In-package_item c (k ∷ imports) (inr m) = inr (In-package_item c imports m)

  with_imports-In :
      (r : Submission) (imports : List ℕ) (c : ℕ)
      → (with_imports r imports).1 ≡ none
      → In c imports
      → In (package_item c) (with_imports r imports).0
  with_imports-In (items, some e) imports c n m = absurd (ground arith)
  with_imports-In (items, none) imports c n m =
      In-right (package_item c) items (map package_item imports) (In-package_item c imports m)

  -- A stage whose packages submit their imports where they return no error.
  module _ (p : Parsable Item) (files : Package → List Text)
      (ids : (item : Item) → p.id_of item ≡ id_of_item packages files item)
      (submitted : (h c : ℕ)
        → p.failure (package_item h) ≡ none
        → In c (packages h).imports
        → In (package_item c) (p.submits (package_item h)))
      (workers : ℕ) where
    no_failure :
        (s : StageState Item) (item : Item)
        → IsComplete p workers s
        → (wait s).0 ≡ none
        → In item s.begun
        → p.failure item ≡ none
    no_failure s item v w m = at_failure (p.failure item) refl
      where
        at_failure : (o : Option Text) → p.failure item ≡ o → p.failure item ≡ none
        at_failure none e = e
        at_failure (some x) e =
            absurd (subst (λ o. In x (errors_of o)) w ((v.reported x).1 (item, m, e)))

    parsed :
        (s : StageState Item) (k : ℕ)
        → IsComplete p workers s
        → In (package_item k) s.submitted
        → IsParsed s k ⊎ IsMistaken files s k
    parsed s k v m = elim (v.covered (package_item k) m) [
      | inl b ↦ inl (k, b, refl)
      | inr (id, e, (item, b, f)) ↦
          same_id item b (sym (ids item) ∙ f ∙ sym e ∙ ids (package_item k))
    ]
      where
        same_id :
            (item : Item)
            → In item s.begun
            → id_of_item packages files item ≡ some (packages k).id
            → IsParsed s k ⊎ IsMistaken files s k
        same_id (package_item b) m e = inl (b, m, same_text e)
        same_id (file_item b n) m e = inr (b, n, m, e)

    all_parsed :
        (s : StageState Item) (h k : ℕ)
        → SameImports
        → IsComplete p workers s
        → (wait s).0 ≡ none
        → In (package_item h) s.submitted
        → Imported h k
        → IsParsed s k ⊎ ((j : ℕ) × Imported h j × IsMistaken files s j)
    all_parsed s h k same v w m itself = elim (parsed s k v m) [
      | inl y ↦ inl y
      | inr x ↦ inr (k, itself, x)
    ]
    all_parsed s h k same v w m (by_import {k = j} i x) = elim (all_parsed s h j same v w m i) [
      | inr y ↦ inr y
      | inl (b, begun, e) ↦
          let (d, y, f) = same j b k (sym e) x in
          elim (parsed s d v (
            v.closed (package_item b) (package_item d) begun
              (submitted b d (no_failure s (package_item b) v w begun) y))) [
                | inl (a, z, g) ↦ inl (a, z, g ∙ f)
                | inr (a, n, z, g) ↦ inr (k, by_import i x, (a, n, z, g ∙ ap some f))
              ]
    ]

  module _ (opened : ℕ → Text → Option Text) (file_failure : ℕ → ℕ → Option Text)
      (workers : ℕ) where
    -- However the goroutines interleave: when `Wait` returns no error for the first stage, and
    -- packages with one ID import packages with the same IDs, every package that a submitted one
    -- imports, directly or not, was parsed, or one with its ID, unless a file was parsed whose path is
    -- the ID of such a package.
    pub package_stage_lem :
        (parses : Text → Bool) (s : StageState Item) (h k : ℕ)
        → SameImports
        → Reach (package_stage packages opened parses file_failure) workers s
        → IsQuiet s
        → (wait s).0 ≡ none
        → In (package_item h) s.submitted
        → Imported h k
        → IsParsed s k ⊎ ((j : ℕ) × Imported h j × IsMistaken files_of s j)
    package_stage_lem parses s h k same r q w m i =
        let p = package_stage packages opened parses file_failure in
        all_parsed p files_of (λ item. refl)
          (λ g c e x. unfold package_parse in with_imports-In _ (packages g).imports c e x) workers
          s h k same (quiet-IsComplete p workers s r q) w m i

    -- The same holds for the second stage: when `Wait` returns no error, and packages with one ID
    -- import packages with the same IDs, every package that a submitted one imports, directly or not,
    -- was parsed, or one with its ID, unless a file was parsed whose path is the ID of such a package.
    pub assignment_stage_lem :
        (s : StageState Item) (h k : ℕ)
        → SameImports
        → Reach (assignment_stage packages opened file_failure) workers s
        → IsQuiet s
        → (wait s).0 ≡ none
        → In (package_item h) s.submitted
        → Imported h k
        → IsParsed s k ⊎ ((j : ℕ) × Imported h j × IsMistaken (λ pkg. pkg.compiled_go_files) s j)
    assignment_stage_lem s h k same r q w m i =
        let p = assignment_stage packages opened file_failure in
        all_parsed p (λ pkg. pkg.compiled_go_files) (λ item. refl)
          (λ g c e x. unfold assignment_parse in with_imports-In _ (packages g).imports c e x)
          workers s h k same (quiet-IsComplete p workers s r q) w m i
