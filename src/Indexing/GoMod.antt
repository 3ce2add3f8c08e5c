-- ===== src/Indexing/GoMod.antt =====
-- pkg/indexing/indexing.go: the go.mod that `findGoModPath` finds.
use askl_golang_indexer.Prelude.{
  ℕ, zero, suc, ◌≤◌, ◌<◌, ◌≡◌, refl, sym, subst, ◌⊎◌, inl, inr, Bool, true, false, arith, Text,
  text_beq, text_beq_iff, text_eq, Result, ok, err, Bool-cases,
}
use askl_golang_indexer.Prelude.Texts.{bytes}
use askl_golang_indexer.Indexing.Paths.{
  Stat, is_dir, is_file, not_exist, stat_error, FileSystem, PathError, mod_unreadable, no_go_mod,
  find_go_mod,
}
use askl_golang_indexer.Indexing.Ancestor.{up, Ends}

module _ (fs : FileSystem) where
  abbrev pub go_mod_in : Text → Text
  go_mod_in p = fs.join p (bytes "go.mod")

  abbrev exists : Stat → Bool
  exists is_dir = true
  exists is_file = true
  exists _ = false

  find_here :
      (fuel : ℕ) (p : Text)
      → exists (fs.stat (go_mod_in p)) ≡ true
      → find_go_mod fs (suc fuel) p ≡ ok (go_mod_in p)
  unfolding find_go_mod
  find_here fuel p e = ground arith

  find_error :
      (fuel : ℕ) (p : Text)
      → fs.stat (go_mod_in p) ≡ stat_error
      → find_go_mod fs (suc fuel) p ≡ err mod_unreadable
  unfolding find_go_mod
  find_error fuel p e = ground arith

  find_end :
      (fuel : ℕ) (p : Text)
      → fs.stat (go_mod_in p) ≡ not_exist
      → text_beq (fs.dir p) p ≡ true
      → find_go_mod fs (suc fuel) p ≡ err no_go_mod
  unfolding find_go_mod
  find_end fuel p e d = ground arith

  find_up :
      (fuel : ℕ) (p : Text)
      → fs.stat (go_mod_in p) ≡ not_exist
      → text_beq (fs.dir p) p ≡ false
      → find_go_mod fs (suc fuel) p ≡ find_go_mod fs fuel (fs.dir p)
  unfolding find_go_mod
  find_up fuel p e d = ground arith

  Stat-cases : (s : Stat) → (exists s ≡ true) ⊎ ((s ≡ stat_error) ⊎ (s ≡ not_exist))
  Stat-cases is_dir = inl refl
  Stat-cases is_file = inl refl
  Stat-cases stat_error = inr (inl refl)
  Stat-cases not_exist = inr (inr refl)

  -- `out` is the go.mod of the `k`-th directory above `p`, and no directory below it has one.
  abbrev pub IsNearest : Text → Text → ℕ → Type 0
  IsNearest p out k =
      (out ≡ go_mod_in (up fs k p))
      × (exists (fs.stat out) ≡ true)
      × ((j : ℕ) → j < k → fs.stat (go_mod_in (up fs j p)) ≡ not_exist)

  -- The `k`-th directory above `p` could not be asked, and no directory below it has a go.mod.
  abbrev pub IsUnreadable : Text → ℕ → Type 0
  IsUnreadable p k =
      (fs.stat (go_mod_in (up fs k p)) ≡ stat_error)
      × ((j : ℕ) → j < k → fs.stat (go_mod_in (up fs j p)) ≡ not_exist)

  -- The `k`-th directory above `p` is the last one, and none up to it has a go.mod.
  abbrev pub IsExhausted : Text → ℕ → Type 0
  IsExhausted p k =
      (fs.dir (up fs k p) ≡ up fs k p)
      × ((j : ℕ) → j < suc k → fs.stat (go_mod_in (up fs j p)) ≡ not_exist)

  -- What the search ends with.
  abbrev pub Found : Text → Result PathError Text → Type 0
  Found p r =
      ((out : Text) × (r ≡ ok out) × ((k : ℕ) × IsNearest p out k))
      ⊎ (((r ≡ err mod_unreadable) × ((k : ℕ) × IsUnreadable p k))
          ⊎ ((r ≡ err no_go_mod) × ((k : ℕ) × IsExhausted p k)))

  -- Where filepath.Dir lowers a depth that is below the fuel, the search for go.mod ends. It returns
  -- the go.mod of the nearest directory that has one; the first error where a directory could not be
  -- asked and no nearer one has a go.mod; or the second where no directory has one, up to the last.
  pub find_go_mod_lem :
      (depth : Text → ℕ) (ends : Ends fs depth) (fuel : ℕ) (p : Text)
      → depth p < fuel
      → Found p (find_go_mod fs fuel p)
  find_go_mod_lem depth ends zero p h = absurd (omega (arith, h))
  find_go_mod_lem depth ends (suc fuel) p h = elim (Stat-cases (fs.stat (go_mod_in p))) [
    | inl e ↦
        inl (go_mod_in p, find_here fuel p e, (0, (refl, e, λ j l. absurd (omega (arith, l)))))
    | inr (inl e) ↦ inr (inl (find_error fuel p e, (0, (e, λ j l. absurd (omega (arith, l))))))
    | inr (inr e) ↦ elim (Bool-cases (text_beq (fs.dir p) p)) [
      | inl d ↦ inr (
          inr (
            find_end fuel p e d,
            (0, ((text_beq_iff (fs.dir p) p).0 d, λ j l. only_here p e j (omega (arith, l)))),
          ))
      | inr d ↦
          let l : suc (depth (fs.dir p)) ≤ depth p = elim (ends.climbs p) [
            | inl s ↦ absurd (ground arith)
            | inr l ↦ l
          ] in
          subst (Found p) (sym (find_up fuel p e d)) (
            further p e (find_go_mod fs fuel (fs.dir p))
              (find_go_mod_lem depth ends fuel (fs.dir p) (omega (arith, l, h))))
    ]
  ]
    where
      below :
          (p : Text) (k : ℕ)
          → fs.stat (go_mod_in p) ≡ not_exist
          → ((j : ℕ) → j < k → fs.stat (go_mod_in (up fs j (fs.dir p))) ≡ not_exist)
          → (j : ℕ) → j < suc k
          → fs.stat (go_mod_in (up fs j p)) ≡ not_exist
      below p k e b zero l = e
      below p k e b (suc j) l = b j (omega (arith, l))

      only_here :
          (p : Text)
          → fs.stat (go_mod_in p) ≡ not_exist
          → (j : ℕ) → j ≡ 0
          → fs.stat (go_mod_in (up fs j p)) ≡ not_exist
      only_here p e zero z = e
      only_here p e (suc j) z = absurd (omega (arith, z))

      further :
          (p : Text)
          → fs.stat (go_mod_in p) ≡ not_exist
          → (r : Result PathError Text) → Found (fs.dir p) r
          → Found p r
      further p e r (inl (out, o, (k, (at_k, there, b)))) =
          inl (out, o, (suc k, (at_k, there, below p k e b)))
      further p e r (inr (inl (o, (k, (failed, b))))) =
          inr (inl (o, (suc k, (failed, below p k e b))))
      further p e r (inr (inr (o, (k, (last, b))))) =
          inr (inr (o, (suc k, (last, below p (suc k) e b))))
