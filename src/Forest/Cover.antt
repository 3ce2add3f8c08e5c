-- ===== src/Forest/Cover.antt =====
-- Which instances a forest reaches, and what stands below what in it, in terms of parents.
use askl_golang_indexer.Prelude.{
  ℕ, ◌<◌, ◌≡◌, sym, subst, inl, inr, true, ◌||◌, Option, none, some, List, [], ◌∷◌, arith, ◌==◌,
  ==_iff, mem, Bool-cases, or-cases,
}
use askl_golang_indexer.Forest.Shape.{Shape, empty, node, tops, has, Obeys, below_in}
use askl_golang_indexer.Forest.Chain.{Chain}

pub has-tops : (f : Shape) (y : ℕ) → mem y (tops f) ≡ true → has y f ≡ true
has-tops empty y h = absurd (ground arith)
has-tops (node x kids rest) y h = ground (arith, has-tops rest y)

-- `x` is a proper ancestor of `y`.
pub data Ancestor (parent : ℕ → Option ℕ) (x : ℕ) : ℕ → Type 0 where
  direct : {y : ℕ} → parent y ≡ some x → Ancestor parent x y
  further : {y z : ℕ} → parent y ≡ some z → Ancestor parent x z → Ancestor parent x y

module _ (kids : ℕ → List ℕ) where
  mem-tops :
      (below : Shape) (x y : ℕ) → tops below ≡ kids x → mem y (kids x) ≡ true → has y below ≡ true
  mem-tops below x y t m = has-tops below y (subst (λ ys. mem y ys ≡ true) (sym t) m)

  -- A forest that has an instance has its children,
  pub has-kid :
      (f : Shape) (x y : ℕ) → Obeys kids f → has x f ≡ true → mem y (kids x) ≡ true → has y f ≡ true
  has-kid empty x y o h m = absurd (ground arith)
  has-kid (node z below rest) x y o h m = elim (Bool-cases (z == x)) [
    | inl e ↦
        let k : has y below ≡ true =
          mem-tops below z y o.0 (subst (λ w. mem y (kids w) ≡ true) (sym ((==_iff z x).0 e)) m) in
        ground arith
    | inr e ↦ ground (arith, has-kid below x y o.1, has-kid rest x y o.2)
  ]

  -- and below it.
  pub below_in-kid :
      (f : Shape) (x y : ℕ)
      → Obeys kids f
      → has x f ≡ true
      → mem y (kids x) ≡ true
      → below_in f x y ≡ true
  below_in-kid empty x y o h m = absurd (ground arith)
  below_in-kid (node z below rest) x y o h m = elim (Bool-cases (z == x)) [
    | inl e ↦
        let k : has y below ≡ true =
          mem-tops below z y o.0 (subst (λ w. mem y (kids w) ≡ true) (sym ((==_iff z x).0 e)) m) in
        ground arith
    | inr e ↦ ground (arith, below_in-kid below x y o.1, below_in-kid rest x y o.2)
  ]

  below_in-step :
      (f : Shape) (x z y : ℕ)
      → Obeys kids f
      → below_in f x z ≡ true
      → mem y (kids z) ≡ true
      → below_in f x y ≡ true
  below_in-step empty x z y o h m = absurd (ground arith)
  below_in-step (node w below rest) x z y o h m =
      ground
        (arith, has-kid below z y o.1, below_in-step below x z y o.1, below_in-step rest x z y o.2)

module _ (parent : ℕ → Option ℕ) (kids : ℕ → List ℕ)
    (kids_sound : (x y : ℕ) → mem y (kids x) ≡ true → parent y ≡ some x) where
  further_trans : (x z y : ℕ) → Ancestor parent x z → Ancestor parent z y → Ancestor parent x y
  further_trans x z y a (direct p) = further p a
  further_trans x z y a (further {z = w} p b) = further p (further_trans x z w a b)

  has-Ancestor :
      (f : Shape) (x y : ℕ)
      → Obeys kids f
      → ((z : ℕ) → mem z (tops f) ≡ true → parent z ≡ some x)
      → has y f ≡ true
      → Ancestor parent x y
  has-Ancestor empty x y o t h = absurd (ground arith)
  has-Ancestor (node w below rest) x y o t h =
      elim (or-cases (w == y) (has y below || has y rest) h) [
        | inl e ↦ subst (Ancestor parent x) ((==_iff w y).0 e) (direct (t w (ground arith)))
        | inr h' ↦ elim (or-cases (has y below) (has y rest) h') [
          | inl b ↦ further_trans x w y (direct (t w (ground arith))) (
              has-Ancestor below w y o.1
                (λ z m. kids_sound w z (subst (λ ys. mem z ys ≡ true) o.0 m)) b)
          | inr r ↦ has-Ancestor rest x y o.2 (λ z m. t z (ground arith)) r
        ]
      ]

  pub below_in-Ancestor :
      (f : Shape) (x y : ℕ) → Obeys kids f → below_in f x y ≡ true → Ancestor parent x y
  below_in-Ancestor empty x y o h = absurd (ground arith)
  below_in-Ancestor (node w below rest) x y o h = elim (Bool-cases (w == x)) [
    | inl e ↦
        subst (λ z. Ancestor parent z y) ((==_iff w x).0 e)
          (has-Ancestor below w y o.1 (λ z m. kids_sound w z (subst (λ ys. mem z ys ≡ true) o.0 m))
            (ground arith))
    | inr e ↦ elim (or-cases (below_in below x y) (below_in rest x y) (ground arith)) [
      | inl b ↦ below_in-Ancestor below x y o.1 b
      | inr r ↦ below_in-Ancestor rest x y o.2 r
    ]
  ]

  module _ (listed : (x y : ℕ) → parent y ≡ some x → mem y (kids x) ≡ true) where
    pub Ancestor-below_in :
        (f : Shape) (x y : ℕ)
        → Obeys kids f
        → has x f ≡ true
        → Ancestor parent x y
        → below_in f x y ≡ true
    Ancestor-below_in f x y o h (direct p) = below_in-kid kids f x y o h (listed x y p)
    Ancestor-below_in f x y o h (further {z = z} p a) =
        below_in-step kids f x z y o (Ancestor-below_in f x z o h a) (listed z y p)

    -- Every instance whose chain of parents ends at a root is reached.
    pub has-Chain :
        (n : ℕ) (f : Shape) (y : ℕ) (ps : List ℕ)
        → Obeys kids f
        → ((x p : ℕ) → parent x ≡ some p → p < n)
        → ((z : ℕ) → parent z ≡ none → z < n → mem z (tops f) ≡ true)
        → y < n
        → Chain parent y ps
        → has y f ≡ true
    has-Chain n f y [] o b t l c = has-tops f y (t y c l)
    has-Chain n f y (p ∷ ps) o b t l c =
        has-kid kids f p y o (has-Chain n f p ps o b t (b y p c.0) c.1) (listed p y c.0)
