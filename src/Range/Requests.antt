-- ===== src/Range/Requests.antt =====
-- Proofs about src/range.rs: a `Range` header as a client prints it is read as it means.
use uwuubox.Prelude.{
  ℕ, ◌≡◌, ◌<◌, All, all, codes, Bool, ◌≤◌, ◌^◌, false, ap, any, refl, true, ◌≢◌, arith, ◌∷◌, some,
  min, [], ◌-◌, ◌++◌, ◌==◌, ltb, append_assoc, sym, ◌∙◌, ◌||◌, leb,
}
use uwuubox.Text.{
  Text, is_whitespace, parse_u64, trim, is_empty, show, is_ascii_digit, split_once, contains_char,
}
use uwuubox.Text.Decimal.{IsDigits, show-IsDigits, show-cons, parse_unsigned-show, show-ne-nil}
use uwuubox.Text.Cutting.{trim_of_ends, split_once-append}
use uwuubox.Range.{
  satisfiable, parse, parse_spec, parse_parts, decimal, requested_end, closed_range, suffix_range,
}

-- The header of a request for the bytes from `a` to `b`, both included.
abbrev pub closed_header : ℕ → ℕ → Text
closed_header a b = codes "bytes=" ++ (show a ++ b'-' ∷ show b)

-- The header of a request for the last `n` bytes.
abbrev pub suffix_header : ℕ → Text
suffix_header n = codes "bytes=" ++ (b'-' ∷ show n)

-- What decimal digits are not.
digit-not_space : (c : ℕ) → is_ascii_digit c ≡ true → is_whitespace c ≡ false
unfolding is_whitespace
digit-not_space c h = ground arith

digits-not_space : (s : Text) → IsDigits s → All (λ c. is_whitespace c ≡ false) s
digits-not_space [] h = tt
digits-not_space (c ∷ s) (p, h) = (digit-not_space c p, digits-not_space s h)

digits-no_dash : (s : Text) → IsDigits s → All (λ c. c ≢ b'-') s
digits-no_dash [] h = tt
digits-no_dash (c ∷ s) (p, h) = ((λ e. ground arith), digits-no_dash s h)

digits-all : (s : Text) → IsDigits s → all is_ascii_digit s ≡ true
digits-all [] h = refl
digits-all (c ∷ s) (p, h) = rw (p, digits-all s h)

any-append_false :
    (f : ℕ → Bool) (xs ys : Text) → any f xs ≡ false → any f ys ≡ false → any f (xs ++ ys) ≡ false
any-append_false f [] ys h k = k
any-append_false f (x ∷ xs) ys h k = ground (arith, any-append_false f xs ys)

digits-any :
    (f : ℕ → Bool)
    → ((c : ℕ) → is_ascii_digit c ≡ true → f c ≡ false)
    → (s : Text) → IsDigits s
    → any f s ≡ false
digits-any f k [] h = refl
digits-any f k (c ∷ s) (p, h) = ground (arith, k c p, digits-any f k s h)

show-not_empty : (n : ℕ) → is_empty (show n) ≡ false
show-not_empty n = let (d, t, e) = show-cons n in rw e refl

decimal-show : (n : ℕ) → n < 2 ^ 64 → decimal (show n) ≡ some n
unfolding decimal parse_u64
decimal-show n h =
    rw (show-not_empty n, digits-all (show n) (show-IsDigits n)) (parse_unsigned-show (2 ^ 64) n h)

-- What `parse` does with a header that neither `trim` nor the tests change.
parse-plain :
    (spec : Text) (len : ℕ)
    → trim (codes "bytes=" ++ spec) ≡ codes "bytes=" ++ spec
    → (is_empty spec || contains_char b',' spec || any is_whitespace spec) ≡ false
    → parse (some (codes "bytes=" ++ spec)) len ≡ parse_parts (split_once b'-' spec) len
unfolding parse parse_spec
parse-plain spec len h k = rw (h, k) refl

closed_header-trim : (a b : ℕ) → trim (closed_header a b) ≡ closed_header a b
unfolding is_whitespace
closed_header-trim a b =
    let e = ap (λ t. codes "bytes=" ++ t) (append_assoc (show a) (b'-' ∷ []) (show b)) in
    ap trim (sym e)
    ∙ trim_of_ends b'b' (codes "ytes=" ++ (show a ++ b'-' ∷ [])) (show b) refl
        (digits-not_space (show b) (show-IsDigits b)) (show-ne-nil b)
    ∙ e

suffix_header-trim : (n : ℕ) → trim (suffix_header n) ≡ suffix_header n
unfolding is_whitespace
suffix_header-trim n =
    trim_of_ends b'b' (codes "ytes=-") (show n) refl (digits-not_space (show n) (show-IsDigits n))
      (show-ne-nil n)

digit-not_comma : (c : ℕ) → is_ascii_digit c ≡ true → (c == b',') ≡ false
digit-not_comma c h = ground arith

show-any :
    (f : ℕ → Bool)
    → ((c : ℕ) → is_ascii_digit c ≡ true → f c ≡ false)
    → (n : ℕ) → any f (show n) ≡ false
show-any f k n = digits-any f k (show n) (show-IsDigits n)

closed_spec-any :
    (f : ℕ → Bool)
    → ((c : ℕ) → is_ascii_digit c ≡ true → f c ≡ false)
    → f b'-' ≡ false
    → (a b : ℕ) → any f (show a ++ b'-' ∷ show b) ≡ false
closed_spec-any f k dash a b =
    any-append_false f (show a) (b'-' ∷ show b) (show-any f k a)
      (ground (arith, dash, show-any f k b))

is_empty-append : (s t : Text) → is_empty s ≡ false → is_empty (s ++ t) ≡ false
is_empty-append [] t h = cc
is_empty-append (c ∷ s) t h = refl

closed_parts :
    (a b len : ℕ)
    → a ≤ b
    → a < len
    → a < 2 ^ 64
    → b < 2 ^ 64
    → parse_parts (some (show a, show b)) len ≡ satisfiable a (min b (len - 1))
unfolding parse_parts requested_end closed_range
closed_parts a b len ab al ha hb =
    let before : ltb b a ≡ false = ground arith in
    let inside : ((len == 0) || leb len a) ≡ false = ground arith in
    rw (show-not_empty a, decimal-show a ha, show-not_empty b, decimal-show b hb, before, inside)
      refl

-- The header `bytes=a-b`, with a ≤ b, a inside the object and both below 2^64, printed in decimal,
-- is read as the range from a to the smaller of b and the last byte.
pub parse-closed_header :
    (a b len : ℕ)
    → a ≤ b
    → a < len
    → a < 2 ^ 64
    → b < 2 ^ 64
    → parse (some (closed_header a b)) len ≡ satisfiable a (min b (len - 1))
unfolding is_whitespace
parse-closed_header a b len ab al ha hb =
    let tests : (is_empty (show a ++ b'-' ∷ show b)
          || contains_char b',' (show a ++ b'-' ∷ show b)
          || any is_whitespace (show a ++ b'-' ∷ show b))
        ≡ false =
      rw
        (
          is_empty-append (show a) (b'-' ∷ show b) (show-not_empty a),
          closed_spec-any (λ c. c == b',') digit-not_comma refl a b,
          closed_spec-any is_whitespace digit-not_space refl a b,
        )
        refl in
    parse-plain (show a ++ b'-' ∷ show b) len (closed_header-trim a b) tests
    ∙ ap (λ p. parse_parts p len)
        (split_once-append b'-' (show a) (show b) (digits-no_dash (show a) (show-IsDigits a)))
    ∙ closed_parts a b len ab al ha hb

-- The header `bytes=-n`, with 0 < n < 2^64, at an object that is not empty, is read as the last n
-- bytes, or all of them if there are fewer.
pub parse-suffix_header :
    (n len : ℕ)
    → 0 < n
    → 0 < len
    → n < 2 ^ 64
    → parse (some (suffix_header n)) len ≡ satisfiable (len - n) (len - 1)
unfolding parse_parts suffix_range is_whitespace split_once
parse-suffix_header n len hn hl h =
    let tests : (false || contains_char b',' (b'-' ∷ show n) || any is_whitespace (b'-' ∷ show n))
        ≡ false =
      rw (show-any (λ c. c == b',') digit-not_comma n, show-any is_whitespace digit-not_space n)
        refl in
    let full_range : ((n == 0) || (len == 0)) ≡ false = ground arith in
    parse-plain (b'-' ∷ show n) len (suffix_header-trim n) tests
    ∙ rw (decimal-show n h, full_range) refl
