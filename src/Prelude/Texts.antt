-- ===== src/Prelude/Texts.antt =====
-- Go strings: byte lists, and the functions of package strings that the code calls.
use Prim.Native.Nat.{ℕ}
use Prim.Native.Char.{code}
use Prim.Native.String.{String}
use mathlib.Core.Bool.{Bool, true, false, ◌&&◌, ◌||◌}
use mathlib.Core.List.{[], ◌∷◌}
use mathlib.Core.Option.{Option, none, some}
use askl_golang_indexer.Prelude.Tests.{Text, text_beq, ◌==◌, if◌then◌else◌}

-- The bytes of an ASCII literal.
abbrev pub bytes : String → Text
bytes String.[] = []
bytes (String.◌∷◌ c s) = code c ∷ bytes s

-- What is left of a text after a prefix.
abbrev pub cut_prefix : Text → Text → Option Text
cut_prefix s [] = some s
cut_prefix [] (p ∷ prefix) = none
cut_prefix (c ∷ s) (p ∷ prefix) = if c == p then cut_prefix s prefix else none

abbrev pub has_prefix : Text → Text → Bool
has_prefix s [] = true
has_prefix [] (p ∷ prefix) = false
has_prefix (c ∷ s) (p ∷ prefix) = c == p && has_prefix s prefix

abbrev pub has_suffix : Text → Text → Bool
has_suffix [] suffix = text_beq [] suffix
has_suffix (c ∷ s) suffix = text_beq (c ∷ s) suffix || has_suffix s suffix

abbrev pub has_infix : Text → Text → Bool
has_infix [] infix_text = has_prefix [] infix_text
has_infix (c ∷ s) infix_text = has_prefix (c ∷ s) infix_text || has_infix s infix_text

-- `strings.TrimLeft(s, c)` for one byte; on a reversed text it is `TrimRight`.
abbrev pub trim_left : ℕ → Text → Text
trim_left b [] = []
trim_left b (c ∷ s) = if c == b then trim_left b s else c ∷ s

-- What follows the first `b`; on a reversed text, what precedes the last one. `none` without a `b`.
abbrev pub after_first : ℕ → Text → Option Text
after_first b [] = none
after_first b (c ∷ s) = if c == b then some s else after_first b s
