-- ===== src/Accounts/Usernames.antt =====
-- Proofs about src/auth.rs: the base names that OIDC logins get are registrable, but for short ones.
use mathlib.Core.List.{reverse, reverse_aux}
use uwuubox.Prelude.{
  ℕ, zero, suc, ◌+◌, ◌≤◌, ◌<◌, All, ◌≡◌, ◌∙◌, ap, sym, refl, subst, Bool-cases, inl, inr, if_true,
  if_false, true, false, [], ◌∷◌, ◌++◌, arith, ok, err, leb, ltb, length, take, map, all, codes,
  bytes_eq, bytes_eq_sound, if◌then◌else◌, ◌&&◌, ◌==◌,
}
use uwuubox.Text.{Text, len, len_utf8}
use uwuubox.Accounts.Auth.{
  validate_username, oidc_base_username, is_name_char, is_username_reserved, trim_matches,
  trim_underscores, name_char, unreserved,
}

abbrev IsName : Text → Type 0
IsName s = All (λ c. is_name_char c ≡ true) s

name_char-allowed : (c : ℕ) → is_name_char (name_char c) ≡ true
name_char-allowed c = elim (Bool-cases (is_name_char c)) [
  | inl good ↦ ap is_name_char (if_true _ _ good) ∙ good
  | inr bad ↦ ap is_name_char (if_false _ _ bad)
]

map-IsName : (s : Text) → IsName (map name_char s)
map-IsName [] = tt
map-IsName (c ∷ s) = (name_char-allowed c, map-IsName s)

take-IsName : (n : ℕ) (s : Text) → IsName s → IsName (take n s)
take-IsName zero s h = tt
take-IsName (suc n) [] h = tt
take-IsName (suc n) (c ∷ s) (p, h) = (p, take-IsName n s h)

length-take_le : (n : ℕ) (s : Text) → length (take n s) ≤ n
length-take_le zero s = omega arith
length-take_le (suc n) [] = omega arith
length-take_le (suc n) (c ∷ s) = omega (arith, length-take_le n s)

-- What every name that is cut out of another keeps.
abbrev Fits : ℕ → Text → Type 0
Fits n s = IsName s × (length s ≤ n)

trim_underscores-Fits : (n : ℕ) (s : Text) → Fits n s → Fits n (trim_underscores s)
unfolding trim_underscores
trim_underscores-Fits n [] h = h
trim_underscores-Fits n (c ∷ s) ((p, h), l) = elim (Bool-cases (c == b'_')) [
  | inl at ↦ rw (at, trim_underscores) (trim_underscores-Fits n s (h, omega arith))
  | inr other ↦ rw (other, trim_underscores) ((p, h), l)
]

reverse_aux-Fits :
    (n : ℕ) (s t : Text) → IsName s → IsName t → length s + length t ≤ n → Fits n (reverse_aux s t)
reverse_aux-Fits n [] t h k l = (k, omega arith)
reverse_aux-Fits n (c ∷ s) t (p, h) k l = reverse_aux-Fits n s (c ∷ t) h (p, k) (omega arith)

reverse-Fits : (n : ℕ) (s : Text) → Fits n s → Fits n (reverse s)
reverse-Fits n s (h, l) = reverse_aux-Fits n s [] h tt (omega arith)

trim_matches-Fits : (n : ℕ) (s : Text) → Fits n s → Fits n (trim_matches s)
unfolding trim_matches
trim_matches-Fits n s h =
    reverse-Fits n _ (trim_underscores-Fits n _ (reverse-Fits n _ (trim_underscores-Fits n s h)))

name_char-byte : (c : ℕ) → is_name_char c ≡ true → len_utf8 c ≡ 1
unfolding len_utf8
name_char-byte c h = ground arith

len-name : (s : Text) → IsName s → len s ≡ length s
unfolding len
len-name [] h = refl
len-name (c ∷ s) (p, h) = let e = name_char-byte c p in let f = len-name s h in omega arith

all-name : (s : Text) → IsName s → all is_name_char s ≡ true
all-name [] h = refl
all-name (c ∷ s) (p, h) = let e = all-name s h in ground arith

-- A name that passes every check.
validate_username-good :
    (s : Text)
    → IsName s
    → 3 ≤ length s
    → length s ≤ 24
    → is_username_reserved s ≡ false
    → validate_username s ≡ ok s
unfolding validate_username
validate_username-good s h low high free =
    let e = len-name s h in
    let size : (leb 3 (len s) && leb (len s) 24) ≡ true = ground arith in
    rw (size, all-name s h, free)

validate_username-reserved :
    (s : Text)
    → is_username_reserved s ≡ true
    → validate_username (s ++ codes "_uwu") ≡ ok (s ++ codes "_uwu")
unfolding validate_username len len_utf8
validate_username-reserved s h = elim (Bool-cases (bytes_eq s (codes "admin"))) [
  | inl e ↦ at (codes "admin") e refl
  | inr n1 ↦ elim (Bool-cases (bytes_eq s (codes "root"))) [
    | inl e ↦ at (codes "root") e refl
    | inr n2 ↦ elim (Bool-cases (bytes_eq s (codes "system"))) [
      | inl e ↦ at (codes "system") e refl
      | inr n3 ↦ elim (Bool-cases (bytes_eq s (codes "api"))) [
        | inl e ↦ at (codes "api") e refl
        | inr n4 ↦ elim (Bool-cases (bytes_eq s (codes "support"))) [
          | inl e ↦ at (codes "support") e refl
          | inr n5 ↦ ground arith
        ]
      ]
    ]
  ]
]
  where
    at :
        (word : Text)
        → bytes_eq s word ≡ true
        → validate_username (word ++ codes "_uwu") ≡ ok (word ++ codes "_uwu")
        → validate_username (s ++ codes "_uwu") ≡ ok (s ++ codes "_uwu")
    at word e good =
        subst (λ t. validate_username (t ++ codes "_uwu") ≡ ok (t ++ codes "_uwu"))
          (sym (bytes_eq_sound s word e)) good

unreserved-good :
    (s : Text)
    → IsName s
    → 3 ≤ length s
    → length s ≤ 24
    → validate_username (unreserved s) ≡ ok (unreserved s)
unreserved-good s h low high = elim (Bool-cases (is_username_reserved s)) [
  | inl held ↦
      subst (λ t. validate_username t ≡ ok t) (sym (if_true _ _ held))
        (validate_username-reserved s held)
  | inr free ↦
      subst (λ t. validate_username t ≡ ok t) (sym (if_false _ _ free))
        (validate_username-good s h low high free)
]

validate_username-bad :
    (s : Text)
    → 3 ≤ len s
    → len s ≤ 24
    → all is_name_char s ≡ false
    → validate_username s ≡ err (codes "username may only contain a-z, 0-9, _")
unfolding validate_username
validate_username-bad s low high bad =
    let size : (leb 3 (len s) && leb (len s) 24) ≡ true = ground arith in rw (size, bad)

len-user : (s : Text) → len (codes "user-" ++ s) ≡ 5 + len s
unfolding len len_utf8
len-user s = omega arith

-- The dash of `user-` is refused.
unreserved-dash :
    (s : Text)
    → IsName s
    → length s < 3
    → validate_username (unreserved (codes "user-" ++ s))
      ≡ err (codes "username may only contain a-z, 0-9, _")
unreserved-dash s h small =
    let e = len-name s h in
    let f = len-user s in
    validate_username-bad (codes "user-" ++ s) (omega arith) (omega arith) refl

-- What is left of a preferred name, before it is padded.
abbrev pub base_of : (Text → Text) → Text → Text
base_of lower preferred = trim_matches (take 20 (map name_char (lower preferred)))

-- The base name of an OIDC login passes `validate_username` exactly if three characters are left of
-- the preferred name after replacing, cutting and trimming; a shorter one is padded to a name that
-- is refused, whatever `to_lowercase` answers.
pub oidc_base_username_registrable :
    (lower : Text → Text) (preferred : Text)
    → validate_username (oidc_base_username lower preferred) ≡ (
        if ltb (length (base_of lower preferred)) 3
        then err (codes "username may only contain a-z, 0-9, _")
        else ok (oidc_base_username lower preferred))
unfolding oidc_base_username
oidc_base_username_registrable lower preferred =
    let cut = map name_char (lower preferred) in
    let (h, l) =
      trim_matches-Fits 20 (take 20 cut)
        (take-IsName 20 cut (map-IsName (lower preferred)), length-take_le 20 cut) in
    elim (Bool-cases (ltb (length (base_of lower preferred)) 3)) [
      | inl short ↦
          ap (λ t. validate_username (unreserved t)) (if_true _ _ short)
          ∙ unreserved-dash (base_of lower preferred) h (ground arith)
          ∙ sym (if_true _ _ short)
      | inr long ↦
          ap (λ t. validate_username (unreserved t)) (if_false _ _ long)
          ∙ unreserved-good (base_of lower preferred) h (ground arith) (omega arith)
          ∙ ap (λ t. ok (unreserved t)) (sym (if_false _ _ long))
          ∙ sym (if_false _ _ long)
    ]
