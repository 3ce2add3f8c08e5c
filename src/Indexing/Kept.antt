-- ===== src/Indexing/Kept.antt =====
-- pkg/indexing/indexing.go, `expandPackagePaths`: what every directory that is added keeps, the whole
-- loop keeps.
use askl_golang_indexer.Prelude.{
  ◌≡◌, refl, subst, inl, inr, Bool, true, false, ◌||◌, Option, none, some, List, [], ◌∷◌, arith,
  Text, ok, and_then-ok, In, Bool-cases,
}
use askl_golang_indexer.Indexing.Paths.{
  Stat, is_dir, is_file, not_exist, stat_error, FileSystem, Visited, add_package_dir, add_if_dir,
  add_abs, add_package_path, match_if_dir, add_match, add_matches, check_added, add_glob, add_input,
  expand_loop, has_glob_meta,
}

-- `Known` holds of an input that is no pattern, and of the matches of one that is.
abbrev pub Covers : FileSystem → (Text → Type 0) → Text → Type 0
Covers fs Known input =
    (has_glob_meta input ≡ false → Known input)
    × (has_glob_meta input ≡ true
        → (matches : List Text) → fs.glob input ≡ some matches
        → (m : Text) → In m matches
        → Known m)

module _ (fs : FileSystem) (Known : Text → Type 0) (P : Visited → Type 0)
    (step : (source path : Text) (r : Visited)
      → Known source
      → fs.abs source ≡ some path
      → fs.stat path ≡ is_dir
      → P r
      → P (add_package_dir fs path r)) where
  add_if_dir-keeps :
      (st : Stat) (source path : Text) (r r' : Visited)
      → Known source
      → fs.abs source ≡ some path
      → fs.stat path ≡ st
      → add_if_dir fs st path r ≡ ok r'
      → P r
      → P r'
  add_if_dir-keeps is_dir source path r r' k a e h p =
      subst P (ground arith) (step source path r k a e p)
  add_if_dir-keeps is_file source path r r' k a e h p = absurd (ground arith)
  add_if_dir-keeps not_exist source path r r' k a e h p = absurd (ground arith)
  add_if_dir-keeps stat_error source path r r' k a e h p = absurd (ground arith)

  add_abs-keeps :
      (o : Option Text) (source : Text) (r r' : Visited)
      → Known source
      → fs.abs source ≡ o
      → add_abs fs o r ≡ ok r'
      → P r
      → P r'
  add_abs-keeps none source r r' k a h p = absurd (ground arith)
  add_abs-keeps (some path) source r r' k a h p =
      add_if_dir-keeps (fs.stat path) source path r r' k a refl h p

  match_if_dir-keeps :
      (st : Stat) (source path : Text) (r : Visited) (out : Bool × Visited)
      → Known source
      → fs.abs source ≡ some path
      → fs.stat path ≡ st
      → match_if_dir fs st path r ≡ ok out
      → P r
      → P out.1
  match_if_dir-keeps is_dir source path r out k a e h p =
      subst (λ (o : Bool × Visited). P o.1) {x = (true, add_package_dir fs path r)} {y = out}
        (ground arith) (step source path r k a e p)
  match_if_dir-keeps is_file source path r out k a e h p =
      subst (λ (o : Bool × Visited). P o.1) {x = (false, r)} {y = out} (ground arith) p
  match_if_dir-keeps not_exist source path r out k a e h p = absurd (ground arith)
  match_if_dir-keeps stat_error source path r out k a e h p = absurd (ground arith)

  pub add_match-keeps :
      (o : Option Text) (source : Text) (r : Visited) (out : Bool × Visited)
      → Known source
      → fs.abs source ≡ o
      → add_match fs o r ≡ ok out
      → P r
      → P out.1
  add_match-keeps none source r out k a h p = absurd (ground arith)
  add_match-keeps (some path) source r out k a h p =
      match_if_dir-keeps (fs.stat path) source path r out k a refl h p

  pub add_matches-keeps :
      (ms : List Text) (s out : Bool × Visited)
      → ((m : Text) → In m ms → Known m)
      → add_matches fs ms s ≡ ok out
      → P s.1
      → P out.1
  unfolding add_matches
  add_matches-keeps [] s out k h p =
      subst (λ (o : Bool × Visited). P o.1) {x = s} {y = out} (ground arith) p
  add_matches-keeps (m ∷ ms) (added, r) out k h p =
      let (mid, one, rest) = and_then-ok (add_match fs (fs.abs m) r) _ out h in
      add_matches-keeps ms (added || mid.0, mid.1) out (λ n i. k n (inr i)) rest
        (add_match-keeps (fs.abs m) m r mid (k m (inl refl)) refl one p)

  check_added-keeps : (s : Bool × Visited) (r' : Visited) → check_added fs s ≡ ok r' → P s.1 → P r'
  check_added-keeps (true, r) r' h p = subst P (ground arith) p
  check_added-keeps (false, r) r' h p = absurd (ground arith)

  add_glob-keeps :
      (o : Option (List Text)) (r r' : Visited)
      → ((ms : List Text) → o ≡ some ms → (m : Text) → In m ms → Known m)
      → add_glob fs o r ≡ ok r'
      → P r
      → P r'
  add_glob-keeps none r r' k h p = absurd (ground arith)
  add_glob-keeps (some []) r r' k h p = absurd (ground arith)
  add_glob-keeps (some (m ∷ ms)) r r' k h p =
      let (mid, one, rest) =
        and_then-ok (add_matches fs (m ∷ ms) (false, r)) (check_added fs) r' h in
      check_added-keeps mid r' rest
        (add_matches-keeps (m ∷ ms) (false, r) mid (k (m ∷ ms) refl) one p)

  pub add_input-keeps :
      (input : Text) (r r' : Visited)
      → Covers fs Known input
      → add_input fs input r ≡ ok r'
      → P r
      → P r'
  unfolding add_input add_package_path
  add_input-keeps input r r' k h p = elim (Bool-cases (has_glob_meta input)) [
    | inl e ↦ add_glob-keeps (fs.glob input) r r' (k.1 e) (rw e at h) p
    | inr e ↦ add_abs-keeps (fs.abs input) input r r' (k.0 e) refl (rw e at h) p
  ]

  pub expand_loop-keeps :
      (inputs : List Text) (r r' : Visited)
      → ((input : Text) → In input inputs → Covers fs Known input)
      → expand_loop fs inputs r ≡ ok r'
      → P r
      → P r'
  unfolding expand_loop
  expand_loop-keeps [] r r' k h p = subst P (ground arith) p
  expand_loop-keeps (input ∷ inputs) r r' k h p =
      let (mid, one, rest) = and_then-ok (add_input fs input r) (expand_loop fs inputs) r' h in
      expand_loop-keeps inputs mid r' (λ j m. k j (inr m)) rest
        (add_input-keeps input r mid (k input (inl refl)) one p)
