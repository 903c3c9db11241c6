-- ===== src/Base/Strings.antt =====
-- The string operations of Rust's `str` that the code calls, on lists of code points.
use Prim.Native.Nat.{ℕ, ◌+◌}
use mathlib.Core.Bool.{Bool, true, false, ◌&&◌, ◌||◌}
use mathlib.Core.List.{[], ◌∷◌, map, reverse}
use mathlib.Core.Option.{Option, none, some}
use coordinator.Base.Tests.{ltb, leb, nat_beq, if◌then◌else◌}
use coordinator.Base.Classes.{Text}

-- `char::is_whitespace`: the code points with the property White_Space.
abbrev pub is_whitespace : ℕ → Bool
is_whitespace c =
    (leb 9 c && leb c 13)
    || nat_beq c 32
    || nat_beq c 133
    || nat_beq c 160
    || nat_beq c 5760
    || (leb 8192 c && leb c 8202)
    || nat_beq c 8232
    || nat_beq c 8233
    || nat_beq c 8239
    || nat_beq c 8287
    || nat_beq c 12288

abbrev pub trim_start_by : (ℕ → Bool) → Text → Text
trim_start_by p [] = []
trim_start_by p (c ∷ s) = if p c then trim_start_by p s else c ∷ s

-- `trim_matches`; `trim` is its case for white space.
abbrev pub trim_matches : (ℕ → Bool) → Text → Text
trim_matches p s = reverse (trim_start_by p (reverse (trim_start_by p s)))

abbrev pub trim : Text → Text
trim = trim_matches is_whitespace

abbrev pub strip_prefix : Text → Text → Option Text
strip_prefix [] s = some s
strip_prefix (c ∷ p) [] = none
strip_prefix (c ∷ p) (d ∷ s) = if nat_beq c d then strip_prefix p s else none

-- `trim_start_matches("0x")`: the prefix is taken off as often as it stands there.
abbrev pub trim_0x : Text → Text
trim_0x (c ∷ d ∷ s) = if nat_beq c b'0' && nat_beq d b'x' then trim_0x s else c ∷ d ∷ s
trim_0x s = s

abbrev pub starts_with : Text → Text → Bool
starts_with p s = elim (strip_prefix p s) [ none ↦ false | some _ ↦ true ]

-- `contains` on a pattern that is a string.
abbrev pub contains_text : Text → Text → Bool
contains_text p [] = starts_with p []
contains_text p (c ∷ s) = starts_with p (c ∷ s) || contains_text p s

-- `split_once`: the text before and after the first delimiter.
abbrev pub split_once : ℕ → Text → Option (Text × Text)
split_once d [] = none
split_once d (c ∷ s) =
    if nat_beq c d
    then some ([], s)
    else elim (split_once d s) [ none ↦ none | some (k, v) ↦ some (c ∷ k, v) ]

-- `to_ascii_lowercase`.
abbrev pub to_ascii_lowercase : Text → Text
to_ascii_lowercase = map λ c. if leb b'A' c && leb c b'Z' then c + 32 else c

-- `Ord` of `str`: UTF-8 order is the order of the code points.
abbrev pub text_leb : Text → Text → Bool
text_leb [] t = true
text_leb (c ∷ s) [] = false
text_leb (c ∷ s) (d ∷ t) = if nat_beq c d then text_leb s t else ltb c d
