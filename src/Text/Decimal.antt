-- ===== src/Text/Decimal.antt =====
-- Printing a number in decimal and reading it back.
use uwuubox.Prelude.{
  ℕ, zero, suc, ◌+◌, ◌-◌, ◌*◌, ◌/◌, ◌%◌, ◌<◌, ◌≡◌, refl, ◌∙◌, true, [], ◌∷◌, some, arith, ltb, All,
  Bool-cases, inl, inr, ◌≢◌,
}
use uwuubox.Prelude.Int.{ℤ, pos, negsuc}
use uwuubox.Text.{
  Text, is_ascii_digit, digits_value, strip_plus, parse_unsigned, parse_i64, neg, i64_bound,
  show_onto, show, show_ℤ,
}

abbrev pub IsDigits : Text → Type 0
IsDigits s = All (λ c. is_ascii_digit c ≡ true) s

digit-is_ascii_digit : (d : ℕ) → d < 10 → is_ascii_digit (b'0' + d) ≡ true
digit-is_ascii_digit d h = ground arith

show_onto-IsDigits : (f n : ℕ) (out : Text) → IsDigits out → IsDigits (show_onto f n out)
unfolding show_onto
show_onto-IsDigits zero n out h = h
show_onto-IsDigits (suc f) n out h = elim (Bool-cases (ltb n 10)) [
  | inl small ↦ rw small (digit-is_ascii_digit n (ground arith), h)
  | inr large ↦ rw large (
      show_onto-IsDigits f (n / 10) ((b'0' + n % 10) ∷ out)
        (digit-is_ascii_digit (n % 10) (omega arith), h))
]

pub show-IsDigits : (n : ℕ) → IsDigits (show n)
unfolding show
show-IsDigits n = show_onto-IsDigits (suc n) n [] tt

digits_value-digit :
    (acc d : ℕ) (s : Text)
    → d < 10
    → digits_value acc ((b'0' + d) ∷ s) ≡ digits_value (acc * 10 + d) s
unfolding digits_value
digits_value-digit acc d s h =
    rw (digit-is_ascii_digit d h) (let e : b'0' + d - b'0' ≡ d = omega arith in rw e)

digits_value-show_onto :
    (f n : ℕ) (out : Text) → n < f → digits_value 0 (show_onto f n out) ≡ digits_value n out
unfolding show_onto
digits_value-show_onto zero n out h = elim h [ ]
digits_value-show_onto (suc f) n out h = elim (Bool-cases (ltb n 10)) [
  | inl small ↦
      rw small
        (digits_value-digit 0 n out (ground arith) ∙ (let e : 0 * 10 + n ≡ n = omega arith in rw e))
  | inr large ↦ rw large (
      digits_value-show_onto f (n / 10) ((b'0' + n % 10) ∷ out) (ground arith)
      ∙ digits_value-digit (n / 10) (n % 10) out (omega arith)
      ∙ (let e : n / 10 * 10 + n % 10 ≡ n = omega arith in rw e))
]

pub digits_value-show : (n : ℕ) → digits_value 0 (show n) ≡ some n
unfolding show digits_value
digits_value-show n = digits_value-show_onto (suc n) n [] (omega arith)

show_onto-cons : (f n c : ℕ) (out : Text) → (d : ℕ) × (s : Text) × (show_onto f n (c ∷ out) ≡ d ∷ s)
unfolding show_onto
show_onto-cons zero n c out = (c, out, refl)
show_onto-cons (suc f) n c out = elim (Bool-cases (ltb n 10)) [
  | inl small ↦ (b'0' + n, c ∷ out, rw small)
  | inr large ↦ rw large (show_onto-cons f (n / 10) (b'0' + n % 10) (c ∷ out))
]

pub show-cons : (n : ℕ) → (d : ℕ) × (s : Text) × (show n ≡ d ∷ s)
unfolding show show_onto
show-cons n = elim (Bool-cases (ltb n 10)) [
  | inl small ↦ (b'0' + n, [], rw small)
  | inr large ↦ rw large (show_onto-cons n (n / 10) (b'0' + n % 10) [])
]

strip_plus-digits : (s : Text) → IsDigits s → strip_plus s ≡ s
unfolding strip_plus
strip_plus-digits [] h = refl
strip_plus-digits (c ∷ []) h = refl
strip_plus-digits (c ∷ d ∷ s) h = ground arith

parse_unsigned-digits :
    (bound : ℕ) (s : Text) {n : ℕ}
    → IsDigits s
    → digits_value 0 s ≡ some n
    → s ≢ []
    → n < bound
    → parse_unsigned bound s ≡ some n
unfolding parse_unsigned
parse_unsigned-digits bound [] d v ne h = absurd (ne refl)
parse_unsigned-digits bound (c ∷ s) d v ne h =
    rw (strip_plus-digits (c ∷ s) d) (rw v (ground arith))

pub show-ne-nil : (n : ℕ) → show n ≢ []
show-ne-nil n e = let (d, s, p) = show-cons n in cc

-- A number printed in decimal reads back, for every unsigned type that holds it.
pub parse_unsigned-show : (bound n : ℕ) → n < bound → parse_unsigned bound (show n) ≡ some n
parse_unsigned-show bound n h =
    parse_unsigned-digits bound (show n) (show-IsDigits n) (digits_value-show n) (show-ne-nil n) h

parse_i64-digits :
    (s : Text) {n : ℕ}
    → IsDigits s
    → digits_value 0 s ≡ some n
    → s ≢ []
    → n < i64_bound
    → parse_i64 s ≡ some (pos n)
unfolding parse_i64
parse_i64-digits [] d v ne h = absurd (ne refl)
parse_i64-digits (c ∷ []) d v ne h = rw v (ground arith)
parse_i64-digits (c ∷ e ∷ s) d v ne h = rw (strip_plus-digits (c ∷ e ∷ s) d) (rw v (ground arith))

parse_i64-minus :
    (s : Text) {n : ℕ}
    → digits_value 0 s ≡ some n
    → s ≢ []
    → n < i64_bound + 1
    → parse_i64 (b'-' ∷ s) ≡ some (neg n)
unfolding parse_i64
parse_i64-minus [] v ne h = absurd (ne refl)
parse_i64-minus (c ∷ s) v ne h = rw v (ground arith)

abbrev pub IsI64 : ℤ → Type 0
IsI64 (pos n) = n < i64_bound
IsI64 (negsuc n) = n < i64_bound

-- An `i64` printed in decimal reads back.
pub parse_i64-show_ℤ : (z : ℤ) → IsI64 z → parse_i64 (show_ℤ z) ≡ some z
unfolding show_ℤ
parse_i64-show_ℤ (pos n) h =
    parse_i64-digits (show n) (show-IsDigits n) (digits_value-show n) (show-ne-nil n) h
parse_i64-show_ℤ (negsuc n) h =
    parse_i64-minus (show (n + 1)) (digits_value-show (n + 1)) (show-ne-nil (n + 1)) (omega arith)
    ∙ (let e : n + 1 ≡ suc n = omega arith in rw e)
