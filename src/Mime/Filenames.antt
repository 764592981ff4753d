-- ===== src/Mime/Filenames.antt =====
-- Proofs about `sanitize_filename` of src/mime.rs.
use uwuubox.Prelude.{
  ℕ, All, ◌≡◌, Bool-cases, [], inl, none, refl, inr, ◌≤◌, ◌||◌, ◌==◌, arith, ◌<◌, subst, ◌⊎◌,
  some_eq, sym, if_true, ◌∙◌, if_false, ◌-◌,
}
use uwuubox.Text.{Text, len, len_utf8}
use uwuubox.Mime.{
  clean, drop_dots, or_download, truncate, capped, sanitize_filename, is_control, is_quoting,
  unquoted, push, ◌∷◌, Option, false, some, ltb,
}
use uwuubox.Ids.{base_name}

-- No control character and none of the characters that end a quoted header value.
abbrev pub IsPlain : Text → Type 0
IsPlain s = All (λ c. (is_control c || is_quoting c) ≡ false) s

unquoted-plain :
    (c : ℕ) → is_control c ≡ false → (is_control (unquoted c) || is_quoting (unquoted c)) ≡ false
unquoted-plain c h = ground arith

clean-IsPlain : (s : Text) → IsPlain (clean s)
unfolding clean
clean-IsPlain [] = tt
clean-IsPlain (c ∷ s) = elim (Bool-cases (is_control c)) [
  | inl control ↦ rw control (clean-IsPlain s)
  | inr other ↦ rw other (unquoted-plain c other, clean-IsPlain s)
]

drop_dots-IsPlain : (s : Text) → IsPlain s → IsPlain (drop_dots s)
unfolding drop_dots
drop_dots-IsPlain [] h = tt
drop_dots-IsPlain (c ∷ s) (p, h) = elim (Bool-cases (c == b'.')) [
  | inl dot ↦ rw (dot, drop_dots) (drop_dots-IsPlain s h)
  | inr other ↦ rw (other, drop_dots) (p, h)
]

-- The first character is there, and is no dot.
abbrev pub BeginsName : Text → Type 0
BeginsName [] = ⊥
BeginsName (c ∷ s) = (c == b'.') ≡ false

drop_dots-BeginsName : (s : Text) → BeginsName (or_download (drop_dots s))
unfolding drop_dots
drop_dots-BeginsName [] = refl
drop_dots-BeginsName (c ∷ s) = elim (Bool-cases (c == b'.')) [
  | inl dot ↦ rw (dot, drop_dots) (drop_dots-BeginsName s)
  | inr other ↦ rw (other, drop_dots) other
]

or_download-IsPlain : (s : Text) → IsPlain s → IsPlain (or_download s)
or_download-IsPlain [] h = (refl, (refl, (refl, (refl, (refl, (refl, (refl, (refl, tt))))))))
or_download-IsPlain (c ∷ s) h = h

push-some :
    (c : ℕ) (o : Option Text) {t : Text}
    → push c o ≡ some t
    → (r : Text) × (o ≡ some r) × (t ≡ c ∷ r)
push-some c none h = cc
push-some c (some r) h = (r, refl, cc)

-- The cases of a truncation that does not panic.
truncate-cases :
    (n c : ℕ) (s : Text) {t : Text}
    → truncate n (c ∷ s) ≡ some t
    → ((n ≡ 0) × (t ≡ []))
      ⊎ ((r : Text) × (len_utf8 c ≤ n) × (truncate (n - len_utf8 c) s ≡ some r) × (t ≡ c ∷ r))
unfolding truncate
truncate-cases n c s {t} h = elim (Bool-cases (n == 0)) [
  | inl none_left ↦ inl (ground arith, some_eq (sym h ∙ if_true _ _ none_left))
  | inr some_left ↦ elim (Bool-cases (ltb n (len_utf8 c))) [
    | inl wide ↦ (let e = sym h ∙ if_false _ _ some_left ∙ if_true _ _ wide in cc)
    | inr fits ↦
        (let (r, e, at) =
            push-some c (truncate (n - len_utf8 c) s)
              (sym (if_false _ _ some_left ∙ if_false _ _ fits) ∙ h) in
          inr (r, ground arith, e, at))
  ]
]

truncate-IsPlain : (n : ℕ) (s : Text) {t : Text} → IsPlain s → truncate n s ≡ some t → IsPlain t
unfolding truncate
truncate-IsPlain n [] {t} p h = subst IsPlain (some_eq h) tt
truncate-IsPlain n (c ∷ s) {t} (q, p) h = elim (truncate-cases n c s h) [
  | inl (empty, at) ↦ subst IsPlain (sym at) tt
  | inr (r, fits, e, at) ↦ subst IsPlain (sym at) (q, truncate-IsPlain (n - len_utf8 c) s p e)
]

len-truncate : (n : ℕ) (s : Text) {t : Text} → truncate n s ≡ some t → len t ≤ n
unfolding truncate len
len-truncate n [] {t} h = subst (λ u. len u ≤ n) (some_eq h) (omega arith)
len-truncate n (c ∷ s) {t} h = elim (truncate-cases n c s h) [
  | inl (empty, at) ↦ subst (λ u. len u ≤ n) (sym at) (omega arith)
  | inr (r, fits, e, at) ↦
      subst (λ u. len u ≤ n) (sym at) (let k = len-truncate (n - len_utf8 c) s e in omega arith)
]

truncate-BeginsName :
    (n : ℕ) (s : Text) {t : Text} → 0 < n → BeginsName s → truncate n s ≡ some t → BeginsName t
truncate-BeginsName n [] {t} pos b h = absurd b
truncate-BeginsName n (c ∷ s) {t} pos b h = elim (truncate-cases n c s h) [
  | inl (empty, at) ↦ absurd (omega arith)
  | inr (r, fits, e, at) ↦ subst BeginsName (sym at) b
]

-- What a name that is sent in a header fulfils.
pub record IsSafe (name : Text) : Type 0 where
  pub plain : IsPlain name
  pub begins : BeginsName name
  pub short : len name ≤ 128

capped-IsSafe : (s t : Text) → IsPlain s → BeginsName s → capped s ≡ some t → IsSafe t
capped-IsSafe s t p b h = elim (Bool-cases (ltb 128 (len s))) [
  | inl long ↦
      (let e = sym (if_true _ _ long) ∙ h in
        record {
          plain = truncate-IsPlain 128 s p e;
          begins = truncate-BeginsName 128 s (omega arith) b e;
          short = len-truncate 128 s e;
        })
  | inr fits ↦
      (let e : s ≡ t = some_eq (sym (if_false _ _ fits) ∙ h) in
        record {
          plain = subst IsPlain e p;
          begins = subst BeginsName e b;
          short = subst (λ u. len u ≤ 128) e (ground arith);
        })
]

-- A name that `sanitize_filename` returns begins with a character other than a dot, has no control
-- character, quote, backslash or semicolon, and takes at most 128 bytes.
pub sanitize_filename-IsSafe : (name safe : Text) → sanitize_filename name ≡ some safe → IsSafe safe
unfolding sanitize_filename
sanitize_filename-IsSafe name safe h =
    let cleaned = clean (base_name name) in
    capped-IsSafe (or_download (drop_dots cleaned)) safe
      (or_download-IsPlain (drop_dots cleaned)
        (drop_dots-IsPlain cleaned (clean-IsPlain (base_name name))))
      (drop_dots-BeginsName cleaned) h
