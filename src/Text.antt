-- ===== src/Text.antt =====
-- The parts of Rust's `str` that the program uses. A string is the list of its Unicode scalar
-- values; `len` counts the bytes of its UTF-8 encoding as `str::len` does.
pub mod Decimal
pub mod Cutting
use mathlib.Core.List.{reverse}
use uwuubox.Prelude.{
  ℕ, zero, suc, ◌+◌, ◌-◌, ◌*◌, ◌/◌, ◌%◌, ◌^◌, Bool, true, false, ◌&&◌, ◌||◌, List, [], ◌∷◌, ◌++◌,
  Option, none, some, ltb, leb, ◌==◌, if◌then◌else◌, bytes_eq, any,
}
use uwuubox.Prelude.Int.{ℤ, pos, negsuc}

abbrev pub Text : Type 0
Text = List ℕ

-- `char::len_utf8`
unfoldable pub len_utf8 : ℕ → ℕ
len_utf8 c = if ltb c 0x80 then 1 else if ltb c 0x800 then 2 else if ltb c 0x10000 then 3 else 4

-- `str::len`
unfoldable pub len : Text → ℕ
unfolding len_utf8
len [] = 0
len (c ∷ s) = len_utf8 c + len s

abbrev pub is_empty : Text → Bool
is_empty [] = true
is_empty (c ∷ s) = false

-- `char::is_whitespace`: the Unicode property White_Space.
unfoldable pub is_whitespace : ℕ → Bool
is_whitespace c =
    (leb 9 c && leb c 13)
    || (c == 0x20)
    || (c == 0x85)
    || (c == 0xa0)
    || (c == 0x1680)
    || (leb 0x2000 c && leb c 0x200a)
    || (c == 0x2028)
    || (c == 0x2029)
    || (c == 0x202f)
    || (c == 0x205f)
    || (c == 0x3000)

unfoldable pub trim_start : Text → Text
unfolding is_whitespace
trim_start [] = []
trim_start (c ∷ s) = elim (is_whitespace c) [ true ↦ trim_start s | false ↦ c ∷ s ]

unfoldable pub trim_end : Text → Text
unfolding trim_start
trim_end s = reverse (trim_start (reverse s))

unfoldable pub trim : Text → Text
unfolding trim_start trim_end
trim s = trim_end (trim_start s)

abbrev pub is_ascii_digit : ℕ → Bool
is_ascii_digit c = leb b'0' c && leb c b'9'

abbrev pub is_ascii_lowercase : ℕ → Bool
is_ascii_lowercase c = leb b'a' c && leb c b'z'

abbrev pub is_ascii_uppercase : ℕ → Bool
is_ascii_uppercase c = leb b'A' c && leb c b'Z'

-- `str::strip_prefix`
unfoldable pub strip_prefix : Text → Text → Option Text
strip_prefix [] s = some s
strip_prefix (p ∷ ps) [] = none
strip_prefix (p ∷ ps) (c ∷ s) = if p == c then strip_prefix ps s else none

unfoldable pub starts_with : Text → Text → Bool
starts_with [] s = true
starts_with (p ∷ ps) [] = false
starts_with (p ∷ ps) (c ∷ s) = (p == c) && starts_with ps s

abbrev pub contains_char : ℕ → Text → Bool
contains_char d s = any (λ c. c == d) s

-- `str::contains` with a text
unfoldable pub contains_text : Text → Text → Bool
unfolding starts_with
contains_text p [] = starts_with p []
contains_text p (c ∷ s) = elim (starts_with p (c ∷ s)) [ true ↦ true | false ↦ contains_text p s ]

abbrev push_first : ℕ → Option (Text × Text) → Option (Text × Text)
push_first c none = none
push_first c (some (a, b)) = some (c ∷ a, b)

-- `str::split_once` with a character
unfoldable pub split_once : ℕ → Text → Option (Text × Text)
split_once d [] = none
split_once d (c ∷ s) = if c == d then some ([], s) else push_first c (split_once d s)

-- The digits of a number, read from the left.
unfoldable pub digits_value : ℕ → Text → Option ℕ
digits_value acc [] = some acc
digits_value acc (c ∷ s) = if is_ascii_digit c then digits_value (acc * 10 + (c - b'0')) s else none

abbrev pub below : ℕ → Option ℕ → Option ℕ
below bound none = none
below bound (some n) = if ltb n bound then some n else none

-- A sign is taken off only in front of something.
unfoldable pub strip_plus : Text → Text
strip_plus [] = []
strip_plus (c ∷ []) = c ∷ []
strip_plus (c ∷ d ∷ s) = if c == b'+' then d ∷ s else c ∷ d ∷ s

-- `str::parse::<uN>` for the type whose values lie below the bound
unfoldable pub parse_unsigned : ℕ → Text → Option ℕ
unfolding digits_value strip_plus
parse_unsigned bound [] = none
parse_unsigned bound (c ∷ s) = below bound (digits_value 0 (strip_plus (c ∷ s)))

unfoldable pub parse_u64 : Text → Option ℕ
unfolding parse_unsigned
parse_u64 s = parse_unsigned (2 ^ 64) s

abbrev pub neg : ℕ → ℤ
neg zero = pos 0
neg (suc n) = negsuc n

abbrev pub signed : (ℕ → ℤ) → ℕ → Option ℕ → Option ℤ
signed sign bound none = none
signed sign bound (some n) = if ltb n bound then some (sign n) else none

abbrev pub i64_bound : ℕ
i64_bound = 9_223_372_036_854_775_808

-- `str::parse::<i64>`
unfoldable pub parse_i64 : Text → Option ℤ
unfolding digits_value strip_plus
parse_i64 [] = none
parse_i64 (c ∷ []) = signed pos i64_bound (digits_value 0 (c ∷ []))
parse_i64 (c ∷ d ∷ s) =
    if c == b'-'
    then signed neg (i64_bound + 1) (digits_value 0 (d ∷ s))
    else signed pos i64_bound (digits_value 0 (strip_plus (c ∷ d ∷ s)))

-- The decimal digits of `n` in front of `out`; the fuel exceeds the number.
show_onto : ℕ → ℕ → Text → Text
show_onto zero n out = out
show_onto (suc f) n out =
    let more = show_onto f (n / 10) ((b'0' + n % 10) ∷ out) in
    if ltb n 10 then (b'0' + n) ∷ out else more

-- `to_string` on an unsigned integer
unfoldable pub show : ℕ → Text
unfolding show_onto
show n = show_onto (suc n) n []

unfoldable pub show_ℤ : ℤ → Text
unfolding show
show_ℤ (pos n) = show n
show_ℤ (negsuc n) = b'-' ∷ show (n + 1)
