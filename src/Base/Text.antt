-- ===== src/Base/Text.antt =====
-- A Rust `str` as the list of its code points, and the methods of `str` and `char` that are used.
use Prim.Native.Nat.{ℕ, ◌+◌, ◌-◌, ◌*◌, ◌/◌, ◌%◌}
use Prim.Native.Char.{code}
use Prim.Native.String.{String}
use mathlib.Core.Bool.{Bool, true, false, ◌&&◌, ◌||◌}
use mathlib.Core.Option.{Option, none, some}
use mathlib.Core.List.{List, [], ◌∷◌, ◌++◌, map, reverse}
use shairplay_rust.Base.Tests.{ltb, leb, ◌==◌, if◌then◌else◌, bytes_eq}

-- The code points of a literal.
abbrev pub codes : String → List ℕ
codes String.[] = []
codes (String.◌∷◌ c s) = code c ∷ codes s

unfoldable pub is_ascii_digit : ℕ → Bool
is_ascii_digit c = leb b'0' c && leb c b'9'

abbrev pub is_empty : List ℕ → Bool
is_empty [] = true
is_empty (c ∷ cs) = false

-- `char::is_whitespace`: the White_Space property.
unfoldable pub is_whitespace : ℕ → Bool
is_whitespace c =
    (leb 9 c && leb c 13)
    || c == 0x20
    || c == 0x85
    || c == 0xa0
    || c == 0x1680
    || (leb 0x2000 c && leb c 0x200a)
    || c == 0x2028
    || c == 0x2029
    || c == 0x202f
    || c == 0x205f
    || c == 0x3000

unfoldable pub to_ascii_lowercase : ℕ → ℕ
to_ascii_lowercase c = if leb b'A' c && leb c b'Z' then c + 32 else c

unfoldable pub eq_ignore_ascii_case : List ℕ → List ℕ → Bool
unfolding to_ascii_lowercase
eq_ignore_ascii_case s t = bytes_eq (map to_ascii_lowercase s) (map to_ascii_lowercase t)

unfoldable pub trim_start : List ℕ → List ℕ
unfolding is_whitespace
trim_start [] = []
trim_start (c ∷ cs) = if is_whitespace c then trim_start cs else c ∷ cs

unfoldable pub trim : List ℕ → List ℕ
unfolding trim_start
trim s = reverse (trim_start (reverse (trim_start s)))

-- `split(sep)`: the pieces between the separators, at least one.
unfoldable pub split_from : ℕ → List ℕ → List ℕ → List (List ℕ)
split_from sep piece [] = piece ∷ []
split_from sep piece (c ∷ cs) = elim (c == sep) [
  | true ↦ piece ∷ split_from sep [] cs
  | false ↦ split_from sep (piece ++ (c ∷ [])) cs
]

unfoldable pub split : ℕ → List ℕ → List (List ℕ)
unfolding split_from
split sep s = split_from sep [] s

abbrev pub push_nonempty : List ℕ → List (List ℕ) → List (List ℕ)
push_nonempty [] rest = rest
push_nonempty (c ∷ cs) rest = (c ∷ cs) ∷ rest

-- `split_whitespace`: the maximal runs of other characters.
unfoldable pub split_whitespace_from : List ℕ → List ℕ → List (List ℕ)
unfolding is_whitespace
split_whitespace_from piece [] = push_nonempty piece []
split_whitespace_from piece (c ∷ cs) = elim (is_whitespace c) [
  | true ↦ push_nonempty piece (split_whitespace_from [] cs)
  | false ↦ split_whitespace_from (piece ++ (c ∷ [])) cs
]

unfoldable pub split_whitespace : List ℕ → List (List ℕ)
unfolding split_whitespace_from
split_whitespace s = split_whitespace_from [] s

-- `parse::<uN>()` of digits alone: `none` on a character that is no digit, or above the maximum.
unfoldable pub parse_digits : ℕ → ℕ → List ℕ → Option ℕ
unfolding is_ascii_digit
parse_digits limit acc [] = some acc
parse_digits limit acc (c ∷ cs) =
    let value = acc * 10 + (c - b'0') in
    let rest = parse_digits limit value cs in
    if is_ascii_digit c && ltb value limit then rest else none

-- An unsigned `parse`: one leading `+` is taken, and the empty text is refused.
unfoldable pub parse_unsigned : ℕ → List ℕ → Option ℕ
unfolding parse_digits
parse_unsigned limit [] = none
parse_unsigned limit (c ∷ []) = if c == b'+' then none else parse_digits limit 0 (c ∷ [])
parse_unsigned limit (c ∷ d ∷ cs) =
    if c == b'+' then parse_digits limit 0 (d ∷ cs) else parse_digits limit 0 (c ∷ d ∷ cs)

abbrev with_first : ℕ → Option (List ℕ × List ℕ) → Option (List ℕ × List ℕ)
with_first c none = none
with_first c (some (before, after)) = some (c ∷ before, after)

-- `split_once` at the first character that passes the test.
unfoldable pub split_once : (ℕ → Bool) → List ℕ → Option (List ℕ × List ℕ)
split_once test [] = none
split_once test (c ∷ cs) =
    let later = with_first c (split_once test cs) in if test c then some ([], cs) else later

-- The bytes of a string.
unfoldable pub utf8_of : ℕ → List ℕ
utf8_of c =
    if ltb c 128
    then c ∷ []
    else if ltb c 2048
    then (192 + c / 64) ∷ (128 + c % 64) ∷ []
    else if ltb c 65536
    then (224 + c / 4096) ∷ (128 + c / 64 % 64) ∷ (128 + c % 64) ∷ []
    else (240 + c / 262144) ∷ (128 + c / 4096 % 64) ∷ (128 + c / 64 % 64) ∷ (128 + c % 64) ∷ []

unfoldable pub as_bytes : List ℕ → List ℕ
unfolding utf8_of
as_bytes [] = []
as_bytes (c ∷ cs) = utf8_of c ++ as_bytes cs
