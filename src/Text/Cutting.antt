-- ===== src/Text/Cutting.antt =====
-- `split_once` and `trim` on texts of a known shape.
use mathlib.Core.List.{reverse, reverse_aux, reverse-append, reverse-reverse}
use uwuubox.Prelude.{ℕ, ◌≡◌, ◌≢◌, [], ◌∷◌, ◌++◌, some, arith, All, refl, sym, ◌∙◌, ap, false}
use uwuubox.Text.{Text, split_once, strip_prefix, trim_start, trim, is_whitespace}

-- The first occurrence of the character splits the text.
pub split_once-append :
    (d : ℕ) (a b : Text) → All (λ c. c ≢ d) a → split_once d (a ++ d ∷ b) ≡ some (a, b)
unfolding split_once
split_once-append d [] b h = ground arith
split_once-append d (c ∷ a) b (p, h) = ground (arith, split_once-append d a b h)

-- A stripped prefix put back gives the text.
pub strip_prefix_sound : (p s : Text) {r : Text} → strip_prefix p s ≡ some r → s ≡ p ++ r
unfolding strip_prefix
strip_prefix_sound [] s h = ground arith
strip_prefix_sound (p ∷ ps) [] h = cc
strip_prefix_sound (p ∷ ps) (c ∷ s) {r} h = ground (arith, strip_prefix_sound ps s {r = r})

pub strip_prefix-append : (p s : Text) → strip_prefix p (p ++ s) ≡ some s
unfolding strip_prefix
strip_prefix-append [] s = refl
strip_prefix-append (p ∷ ps) s = ground (arith, strip_prefix-append ps s)

module _ {ℓ} (P : ℕ → Type ℓ) where
  pub All-reverse_aux : (xs ys : Text) → All P xs → All P ys → All P (reverse_aux xs ys)
  All-reverse_aux [] ys _ k = k
  All-reverse_aux (x ∷ xs) ys (p, h) k = All-reverse_aux xs (x ∷ ys) h (p, k)

trim_start-digits :
    (xs ys : Text)
    → All (λ c. is_whitespace c ≡ false) xs
    → xs ≢ []
    → trim_start (xs ++ ys) ≡ xs ++ ys
unfolding trim_start
trim_start-digits [] ys h ne = absurd (ne refl)
trim_start-digits (x ∷ xs) ys (p, h) ne = rw (p, trim_start)

reverse-ne-nil : (xs : Text) → xs ≢ [] → reverse xs ≢ []
reverse-ne-nil xs ne e = ne (sym (reverse-reverse xs) ∙ ap reverse e)

-- `trim` keeps a text that begins and ends with characters that are not white space.
pub trim_of_ends :
    (c : ℕ) (xs ys : Text)
    → is_whitespace c ≡ false
    → All (λ d. is_whitespace d ≡ false) ys
    → ys ≢ []
    → trim (c ∷ xs ++ ys) ≡ c ∷ xs ++ ys
unfolding trim trim_start
trim_of_ends c xs ys p h ne =
    rw (p, trim_start)
      (ap (λ t. reverse (trim_start t)) (reverse-append (c ∷ xs) ys)
        ∙ ap reverse (
            trim_start-digits (reverse ys) (reverse (c ∷ xs))
              (All-reverse_aux (λ d. is_whitespace d ≡ false) ys [] h tt) (reverse-ne-nil ys ne))
        ∙ ap reverse (sym (reverse-append (c ∷ xs) ys))
        ∙ reverse-reverse (c ∷ xs ++ ys))
