-- ===== src/Parser/Packages/Dedup.antt =====
-- pkg/parser/parser.go: which packages `uniquePackages` keeps.
use mathlib.Core.List.{append-nil, append_assoc}
use askl_golang_indexer.Prelude.{
  ℕ, ◌≡◌, refl, ◌∙◌, ap, sym, subst, ◌⊎◌, inl, inr, true, false, ◌||◌, Option, none, some, List, [],
  ◌∷◌, ◌++◌, map, arith, Text, text_beq_iff, In, In-left, In-right, In-append, Bool-cases,
}
use askl_golang_indexer.Index.Directories.{has_text}
use askl_golang_indexer.Indexing.Expand.{DistinctTexts, DistinctTexts-append, has_text-append}
use askl_golang_indexer.Parser.Packages.{
  Package, Keyed, package_key, add_keyed, add_package, unique_loop, unique_packages,
}

has_text_head : (t : Text) (texts : List Text) → has_text t (t ∷ texts) ≡ true
unfolding has_text
has_text_head t texts = ground (arith, (text_beq_iff t t).1 refl)

has_text_tail :
    (t u : Text) (texts : List Text) → has_text t texts ≡ true → has_text t (u ∷ texts) ≡ true
unfolding has_text
has_text_tail t u texts h = ground arith

module _ (packages : ℕ → Package) where
  abbrev pub keys : List ℕ → List Text
  keys hs = map (package_key packages) hs

  keys-append : (xs ys : List ℕ) → keys (xs ++ ys) ≡ keys xs ++ keys ys
  keys-append [] ys = refl
  keys-append (x ∷ xs) ys = ap (λ l. package_key packages x ∷ l) (keys-append xs ys)

  -- After the packages `pkgs`.
  record IsKeyed (pkgs : List (Option ℕ)) (u : Keyed) : Type 0 where
    same : (t : Text) → has_text t (keys u.out) ≡ has_text t u.seen
    distinct : DistinctTexts (keys u.out)
    given : (h : ℕ) → In h u.out → In (some h) pkgs
    kept :
        (h : ℕ)
        → In (some h) pkgs
        → (package_key packages h ≡ []) ⊎ (has_text (package_key packages h) u.seen ≡ true)

  -- A package that is passed over.
  passed :
      (pkgs : List (Option ℕ)) (pkg : Option ℕ) (u : Keyed)
      → ((h : ℕ)
          → pkg ≡ some h
          → (package_key packages h ≡ []) ⊎ (has_text (package_key packages h) u.seen ≡ true))
      → IsKeyed pkgs u
      → IsKeyed (pkgs ++ pkg ∷ []) u
  passed pkgs pkg u why v = record {
    same = v.same;
    distinct = v.distinct;
    given = λ h m. In-left (some h) pkgs (pkg ∷ []) (v.given h m);
    kept = λ h m. elim (In-append (some h) pkgs (pkg ∷ []) m) [
      | inl l ↦ v.kept h l
      | inr (inl e) ↦ why h e
      | inr (inr z) ↦ absurd z
    ];
  }

  same_pointer : {g h : ℕ} → ◌≡◌ {A = Option ℕ} (some g) (some h) → g ≡ h
  same_pointer e = ground arith

  -- A package with a new key.
  appended :
      (pkgs : List (Option ℕ)) (g : ℕ) (key : Text) (u : Keyed)
      → package_key packages g ≡ key
      → has_text key u.seen ≡ false
      → IsKeyed pkgs u
      → IsKeyed (pkgs ++ some g ∷ []) (record { seen = key ∷ u.seen; out = u.out ++ g ∷ [] })
  unfolding has_text
  appended pkgs g key u k new v =
      let split : keys (u.out ++ g ∷ []) ≡ keys u.out ++ key ∷ [] =
        keys-append u.out (g ∷ []) ∙ ap (λ t. keys u.out ++ t ∷ []) k in
      record {
        same = λ t.
            ap (has_text t) split
            ∙ has_text-append t (keys u.out) (key ∷ [])
            ∙ swapped t (v.same t);
        distinct =
            subst DistinctTexts (sym split)
              (DistinctTexts-append (keys u.out) key (v.same key ∙ new) v.distinct);
        given = λ h m. elim (In-append h u.out (g ∷ []) m) [
          | inl l ↦ In-left (some h) pkgs (some g ∷ []) (v.given h l)
          | inr (inl e) ↦ In-right (some h) pkgs (some g ∷ []) (inl (ap some e))
          | inr (inr z) ↦ absurd z
        ];
        kept = λ h m. elim (In-append (some h) pkgs (some g ∷ []) m) [
          | inl l ↦ elim (v.kept h l) [
            | inl e ↦ inl e
            | inr s ↦ inr (has_text_tail (package_key packages h) key u.seen s)
          ]
          | inr (inl e) ↦ inr (
              subst (λ t. has_text t (key ∷ u.seen) ≡ true)
                (sym k ∙ ap (package_key packages) (same_pointer e)) (has_text_head key u.seen))
          | inr (inr z) ↦ absurd z
        ];
      }
    where
      swapped :
          (t : Text)
          → has_text t (keys u.out) ≡ has_text t u.seen
          → (has_text t (keys u.out) || has_text t (key ∷ [])) ≡ has_text t (key ∷ u.seen)
      swapped t e = ground arith

  add_keyed-IsKeyed :
      (pkgs : List (Option ℕ)) (key : Text) (g : ℕ) (u : Keyed)
      → package_key packages g ≡ key
      → IsKeyed pkgs u
      → IsKeyed (pkgs ++ some g ∷ []) (add_keyed key g u)
  unfolding add_keyed
  add_keyed-IsKeyed pkgs [] g u k v =
      passed pkgs (some g) u (λ h e. inl (ap (package_key packages) (sym (same_pointer e)) ∙ k)) v
  add_keyed-IsKeyed pkgs (c ∷ key) g u k v = elim (Bool-cases (has_text (c ∷ key) u.seen)) [
    | inl s ↦ rw s (
        passed pkgs (some g) u
          (λ h e. inr (
            subst (λ t. has_text t u.seen ≡ true)
              (sym k ∙ ap (package_key packages) (same_pointer e)) s))
          v)
    | inr s ↦ rw s (appended pkgs g (c ∷ key) u k s v)
  ]

  add_package-IsKeyed :
      (pkgs : List (Option ℕ)) (pkg : Option ℕ) (u : Keyed)
      → IsKeyed pkgs u
      → IsKeyed (pkgs ++ pkg ∷ []) (add_package packages pkg u)
  add_package-IsKeyed pkgs none u v = passed pkgs none u (λ h e. absurd (not_some e)) v
    where
      not_some : {h : ℕ} → ◌≡◌ {A = Option ℕ} none (some h) → ⊥
      not_some e = ground arith
  add_package-IsKeyed pkgs (some g) u v = add_keyed-IsKeyed pkgs (package_key packages g) g u refl v

  unique_loop-IsKeyed :
      (before pkgs : List (Option ℕ)) (u : Keyed)
      → IsKeyed before u
      → IsKeyed (before ++ pkgs) (unique_loop packages pkgs u)
  unfolding unique_loop
  unique_loop-IsKeyed before [] u v = subst (λ l. IsKeyed l u) (sym (append-nil before)) v
  unique_loop-IsKeyed before (pkg ∷ pkgs) u v =
      subst (λ l. IsKeyed l (unique_loop packages pkgs (add_package packages pkg u)))
        (append_assoc before (pkg ∷ []) pkgs)
        (unique_loop-IsKeyed (before ++ pkg ∷ []) pkgs (add_package packages pkg u)
          (add_package-IsKeyed before pkg u v))

  -- No two of the packages that are kept have the same key, each one was given, and every package
  -- that was given, nil and those with neither ID nor path aside, has its key among them.
  pub unique_packages_lem :
      (pkgs : List (Option ℕ))
      → DistinctTexts (keys (unique_packages packages pkgs))
        × ((h : ℕ) → In h (unique_packages packages pkgs) → In (some h) pkgs)
        × ((h : ℕ)
            → In (some h) pkgs
            → (package_key packages h ≡ [])
              ⊎ (has_text (package_key packages h) (keys (unique_packages packages pkgs)) ≡ true))
  unfolding unique_packages has_text
  unique_packages_lem pkgs =
      let v =
        unique_loop-IsKeyed [] pkgs (record { seen = []; out = [] })
          (record {
            same = λ t. refl;
            distinct = tt;
            given = λ h m. absurd m;
            kept = λ h m. absurd m;
          }) in
      (
        v.distinct,
        v.given,
        λ h m. elim (v.kept h m) [
          | inl e ↦ inl e
          | inr s ↦ inr (v.same (package_key packages h) ∙ s)
        ],
      )
