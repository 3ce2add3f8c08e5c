-- ===== src/Indexing/Ancestor.antt =====
-- pkg/indexing/indexing.go, `commonAncestor` and `findGoModPath`: their loops end, and what they find.
use askl_golang_indexer.Prelude.{
  ℕ, zero, suc, ◌+◌, ◌-◌, ltb, ◌≤◌, ◌<◌, ◌≡◌, refl, ◌∙◌, ap, sym, subst, ◌⊎◌, inl, inr, Bool, true,
  false, List, [], ◌∷◌, arith, Text, text_beq, Result, ok, err, and_then, and_then-ok, In,
  Bool-cases,
}
use askl_golang_indexer.Indexing.Paths.{
  FileSystem, PathError, no_common_ancestor, is_within_dir, climb, climb_all, common_ancestor,
}

module _ (fs : FileSystem) where
  abbrev pub up : ℕ → Text → Text
  up zero p = p
  up (suc k) p = up k (fs.dir p)

  -- `filepath.Dir` ends: at each path it is the path itself, or nearer to the end.
  pub record Ends (depth : Text → ℕ) : Type 0 where
    pub climbs : (p : Text) → (text_beq (fs.dir p) p ≡ true) ⊎ (suc (depth (fs.dir p)) ≤ depth p)

  -- A path that is absolute, by `filepath.IsAbs`, and clean.
  abbrev pub IsAbsClean : (Text → Bool) → Text → Type 0
  IsAbsClean is_abs p = (is_abs p ≡ true) × (fs.clean p ≡ p)

  -- Of absolute, clean paths: the directory above is absolute and clean, a path lies in itself, and
  -- what lies in a directory lies in the directory above it.
  pub record Nests (is_abs : Text → Bool) : Type 0 where
    pub parent : (a : Text) → IsAbsClean is_abs a → IsAbsClean is_abs (fs.dir a)
    pub self : (a : Text) → IsAbsClean is_abs a → is_within_dir fs a a ≡ true
    pub above :
        (c a : Text)
        → IsAbsClean is_abs c
        → IsAbsClean is_abs a
        → is_within_dir fs c a ≡ true
        → is_within_dir fs c (fs.dir a) ≡ true

  -- One level of `climb`, by what the tests give.
  climb_stop :
      (fuel : ℕ) (c a : Text) → is_within_dir fs c a ≡ true → climb fs (suc fuel) c a ≡ ok a
  unfolding climb
  climb_stop fuel c a e = ground arith

  climb_up :
      (fuel : ℕ) (c a : Text)
      → is_within_dir fs c a ≡ false
      → text_beq (fs.dir a) a ≡ false
      → climb fs (suc fuel) c a ≡ climb fs fuel c (fs.dir a)
  unfolding climb
  climb_up fuel c a e d = ground arith

  climb_end :
      (fuel : ℕ) (c a : Text)
      → is_within_dir fs c a ≡ false
      → text_beq (fs.dir a) a ≡ true
      → climb fs (suc fuel) c a ≡ err no_common_ancestor
  unfolding climb
  climb_end fuel c a e d = ground arith

  -- The first directory above `a`, itself included, that has `c` inside: the `k`-th above.
  abbrev pub IsFirst : Text → Text → ℕ → Type 0
  IsFirst c a k =
      (is_within_dir fs c (up k a) ≡ true) × ((j : ℕ) → j < k → is_within_dir fs c (up j a) ≡ false)

  climb-IsFirst :
      (fuel : ℕ) (c a out : Text)
      → climb fs fuel c a ≡ ok out
      → (k : ℕ) × (out ≡ up k a) × IsFirst c a k
  climb-IsFirst zero c a out h = absurd (unfold climb in ground arith)
  climb-IsFirst (suc fuel) c a out h = elim (Bool-cases (is_within_dir fs c a)) [
    | inl e ↦ (0, same_ok (sym h ∙ climb_stop fuel c a e), (e, λ j l. absurd (omega (arith, l))))
    | inr e ↦ elim (Bool-cases (text_beq (fs.dir a) a)) [
      | inl d ↦ absurd (not_ok (sym (climb_end fuel c a e d) ∙ h))
      | inr d ↦
          let (k, f, (w, least)) =
            climb-IsFirst fuel c (fs.dir a) out (sym (climb_up fuel c a e d) ∙ h) in
          (suc k, f, (w, λ j l. below e least j l))
    ]
  ]
    where
      same_ok : {x y : Text} → ◌≡◌ {A = Result PathError Text} (ok x) (ok y) → x ≡ y
      same_ok h = ground arith

      not_ok : {e : PathError} {x : Text} → ¬ (◌≡◌ {A = Result PathError Text} (err e) (ok x))
      not_ok h = ground arith

      below :
          {k : ℕ}
          → is_within_dir fs c a ≡ false
          → ((j : ℕ) → j < k → is_within_dir fs c (up j (fs.dir a)) ≡ false)
          → (j : ℕ) → j < suc k
          → is_within_dir fs c (up j a) ≡ false
      below e least zero l = e
      below e least (suc j) l = least j (omega (arith, l))

  up_add : (k l : ℕ) (a : Text) → up l (up k a) ≡ up (k + l) a
  up_add zero l a = ap (λ n. up n a) {x = l} {y = 0 + l} (omega arith)
  up_add (suc k) l a =
      up_add k l (fs.dir a) ∙ ap (λ n. up n a) {x = suc (k + l)} {y = suc k + l} (omega arith)

  -- The `k`-th directory above `a` has all paths inside, and each one below it leaves one out.
  abbrev pub IsLowest : List Text → Text → ℕ → Type 0
  IsLowest paths a k =
      ((c : Text) → In c paths → is_within_dir fs c (up k a) ≡ true)
      × ((j : ℕ) → j < k → (c : Text) × In c paths × (is_within_dir fs c (up j a) ≡ false))

  module _ (is_abs : Text → Bool) (n : Nests is_abs) where
    up-IsAbsClean : (a : Text) (k : ℕ) → IsAbsClean is_abs a → IsAbsClean is_abs (up k a)
    up-IsAbsClean a zero h = h
    up-IsAbsClean a (suc k) h = up-IsAbsClean (fs.dir a) k (n.parent a h)

    within_up :
        (c a : Text) (k : ℕ)
        → IsAbsClean is_abs c
        → IsAbsClean is_abs a
        → is_within_dir fs c a ≡ true
        → is_within_dir fs c (up k a) ≡ true
    within_up c a zero h g w = w
    within_up c a (suc k) h g w = within_up c (fs.dir a) k h (n.parent a g) (n.above c a h g w)

    climb_all-IsLowest :
        (fuel : ℕ) (paths : List Text) (a out : Text)
        → ((c : Text) → In c paths → IsAbsClean is_abs c)
        → IsAbsClean is_abs a
        → climb_all fs fuel paths a ≡ ok out
        → (k : ℕ) × (out ≡ up k a) × IsLowest paths a k
    unfolding climb_all
    climb_all-IsLowest fuel [] a out g q h =
        (0, ground arith, (λ c m. absurd m, λ j l. absurd (omega (arith, l))))
    climb_all-IsLowest fuel (c ∷ paths) a out g q h =
        let (mid, one, rest) = and_then-ok (climb fs fuel c a) (climb_all fs fuel paths) out h in
        let (k, e, (w, first)) = climb-IsFirst fuel c a mid one in
        let (l, f, (all, low)) =
          climb_all-IsLowest fuel paths (up k a) out (λ x m. g x (inr m)) (up-IsAbsClean a k q)
            (subst (λ m. climb_all fs fuel paths m ≡ ok out) e rest) in
        (
          k + l,
          f ∙ up_add k l a,
          (
            λ x m. elim m [
              | inl i ↦
                  subst (λ y. is_within_dir fs y (up (k + l) a) ≡ true) i
                    (subst (λ y. is_within_dir fs c y ≡ true) (up_add k l a)
                      (within_up c (up k a) l (g c (inl refl)) (up-IsAbsClean a k q) w))
              | inr i ↦ subst (λ y. is_within_dir fs x y ≡ true) (up_add k l a) (all x i)
            ],
            λ j b. elim (Bool-cases (ltb j k)) [
              | inl s ↦ (c, inl refl, first j (ground arith))
              | inr s ↦
                  let (x, m, out_of) = low (j - k) (ground arith) in
                  let there : k + (j - k) ≡ j = ground arith in
                  (
                    x,
                    inr m,
                    subst (λ i. is_within_dir fs x (up i a) ≡ false) there
                        (subst (λ y. is_within_dir fs x y ≡ false) (up_add k (j - k) a) out_of),
                  )
            ],
          ),
        )

    -- Where it returns for absolute, clean paths, `commonAncestor` gives the lowest directory, among
    -- the first path and those above it, that has every path inside. `Nests` is what filepath.Rel and
    -- filepath.Dir do with such paths.
    pub common_ancestor-IsLowest :
        (fuel : ℕ) (path out : Text) (paths : List Text)
        → ((c : Text) → In c (path ∷ paths) → IsAbsClean is_abs c)
        → common_ancestor fs fuel (path ∷ paths) ≡ ok out
        → (k : ℕ) × (out ≡ up k path) × IsLowest (path ∷ paths) path k
    unfolding common_ancestor
    common_ancestor-IsLowest fuel path out paths g h =
        let q = g path (inl refl) in
        let (k, e, (all, low)) = climb_all-IsLowest fuel paths path out (λ c m. g c (inr m)) q h in
        (
          k,
          e,
          (
            λ c m. elim m [
              | inl i ↦
                  subst (λ y. is_within_dir fs y (up k path) ≡ true) i
                    (within_up path path k q q (n.self path q))
              | inr i ↦ all c i
            ],
            λ j l. let (c, m, w) = low j l in (c, inr m, w),
          ),
        )

  -- The loops end: fuel above the depth of the path is enough.
  module _ (depth : Text → ℕ) (ends : Ends depth) where
    climb_total :
        (fuel : ℕ) (c a : Text)
        → depth a < fuel
        → (climb fs fuel c a ≡ err no_common_ancestor)
          ⊎ ((out : Text) × (climb fs fuel c a ≡ ok out) × (depth out ≤ depth a))
    climb_total zero c a h = absurd (omega (arith, h))
    climb_total (suc fuel) c a h = elim (Bool-cases (is_within_dir fs c a)) [
      | inl e ↦ inr (a, climb_stop fuel c a e, omega arith)
      | inr e ↦ elim (Bool-cases (text_beq (fs.dir a) a)) [
        | inl d ↦ inl (climb_end fuel c a e d)
        | inr d ↦
            let l : suc (depth (fs.dir a)) ≤ depth a = elim (ends.climbs a) [
              | inl s ↦ absurd (ground arith)
              | inr l ↦ l
            ] in
            elim (climb_total fuel c (fs.dir a) (omega (arith, l, h))) [
              | inl f ↦ inl (climb_up fuel c a e d ∙ f)
              | inr (out, f, b) ↦ inr (out, climb_up fuel c a e d ∙ f, omega (arith, b, l))
            ]
      ]
    ]

    climb_all_total :
        (fuel : ℕ) (paths : List Text) (a : Text)
        → depth a < fuel
        → (climb_all fs fuel paths a ≡ err no_common_ancestor)
          ⊎ ((out : Text) × (climb_all fs fuel paths a ≡ ok out))
    unfolding climb_all
    climb_all_total fuel [] a h = inr (a, refl)
    climb_all_total fuel (c ∷ paths) a h = elim (climb_total fuel c a h) [
      | inl e ↦ inl (ap (λ r. and_then r (climb_all fs fuel paths)) e)
      | inr (mid, e, b) ↦
          let first = ap (λ r. and_then r (climb_all fs fuel paths)) e in
          elim (climb_all_total fuel paths mid (omega (arith, b, h))) [
            | inl f ↦ inl (first ∙ f)
            | inr (out, f) ↦ inr (out, first ∙ f)
          ]
    ]

    -- `commonAncestor` always ends, with a directory or with the error that there is none.
    pub common_ancestor_total :
        (fuel : ℕ) (path : Text) (paths : List Text)
        → depth path < fuel
        → (common_ancestor fs fuel (path ∷ paths) ≡ err no_common_ancestor)
          ⊎ ((out : Text) × (common_ancestor fs fuel (path ∷ paths) ≡ ok out))
    unfolding common_ancestor
    common_ancestor_total fuel path paths h = climb_all_total fuel paths path h
