-- ===== src/Index/Extents.antt =====
-- pkg/index/proto_index.go, `protoSpan`: which spans reach the messages.
use askl_golang_indexer.Prelude.{
  ◌≡◌, ◌↔◌, refl, ap, ap₂, sym, ◌∙◌, not, ◌||◌, if◌then◌else◌, Option, none, some, arith,
}
use askl_golang_indexer.Prelude.Int.{
  ℤ, pos, negsuc, ◌≤ℤ◌, ltb_ℤ, to_int32, max_int32, to_int32_fits,
}
use askl_golang_indexer.Proto.{Span}
use askl_golang_indexer.Index.State.{ByteSpan}
use askl_golang_indexer.Index.Symbols.{proto_span, offsets_fit_int32}

-- A span of int32 offsets that is not inverted and lies in an extent.
abbrev pub LiesIn : ByteSpan → ℤ → ℤ → Type 0
LiesIn span start end =
    (pos 0 ≤ℤ span.start)
    × (start ≤ℤ span.start)
    × (span.start ≤ℤ span.end)
    × (span.end ≤ℤ end)
    × (span.end ≤ℤ pos max_int32)

pub to_int32_same : (x : ℤ) → pos 0 ≤ℤ x → x ≤ℤ pos max_int32 → to_int32 x ≡ x
to_int32_same (pos n) h k = to_int32_fits n (omega (arith, k))
to_int32_same (negsuc n) h k = absurd (omega (arith, h))

-- The checks of `protoSpan`, before a given result.
abbrev guarded : ByteSpan → ℤ → ℤ → Span → Option Span
guarded span start end v =
    if not (offsets_fit_int32 span.start span.end)
    then none
    else if ltb_ℤ span.end span.start
    then none
    else if ltb_ℤ span.start start || ltb_ℤ end span.end
    then none
    else some v

guarded-some :
    (span : ByteSpan) (start end : ℤ) (v w : Span)
    → guarded span start end v ≡ some w
    → LiesIn span start end × (v ≡ w)
unfolding offsets_fit_int32
guarded-some span start end v w h = ground arith

guarded_of :
    (span : ByteSpan) (start end : ℤ) (v : Span)
    → LiesIn span start end
    → guarded span start end v ≡ some v
unfolding offsets_fit_int32
guarded_of span start end v h = ground arith

abbrev converted : ByteSpan → Span
converted span = record { start = to_int32 span.start; end = to_int32 span.end }

proto_span-eq-guarded :
    (span : ByteSpan) (start end : ℤ)
    → proto_span (some span) start end ≡ guarded span start end (converted span)
unfolding proto_span
proto_span-eq-guarded span start end = refl

converted_same :
    (span : ByteSpan) (start end : ℤ)
    → LiesIn span start end
    → converted span ≡ record { start = span.start; end = span.end }
converted_same span start end h =
    let a = to_int32_same span.start (omega (arith, h)) (omega (arith, h)) in
    let b = to_int32_same span.end (omega (arith, h)) (omega (arith, h)) in
    ap₂ (λ (x y : ℤ). the_span x y) a b
  where
    the_span : ℤ → ℤ → Span
    the_span x y = record { start = x; end = y }

-- A finer span reaches the messages exactly if it fits an int32, is not inverted and lies in the
-- instance's extent, and it then keeps its offsets.
pub proto_span_iff :
    (span : ByteSpan) (start end : ℤ) (w : Span)
    → (proto_span (some span) start end ≡ some w)
      ↔ (LiesIn span start end × (w ≡ record { start = span.start; end = span.end }))
proto_span_iff span start end w = (
  λ h.
      let (inside, e) =
        guarded-some span start end (converted span) w
          (sym (proto_span-eq-guarded span start end) ∙ h) in
      (inside, sym e ∙ converted_same span start end inside),
  λ (inside, e).
      proto_span-eq-guarded span start end
      ∙ guarded_of span start end (converted span) inside
      ∙ ap some (converted_same span start end inside ∙ sym e),
)
