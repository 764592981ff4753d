-- ===== src/Mime/Truncation.antt =====
-- Proofs about `sanitize_filename` of src/mime.rs: where `String::truncate` panics, and where not.
use uwuubox.Prelude.{
  ℕ, ◌<◌, all, All, ◌++◌, ◌≡◌, [], Bool-cases, ◌+◌, inl, arith, if_true, inr, ap, refl, ◌∙◌,
  if_false, ◌==◌, ◌-◌, ◌||◌, subst, sym,
}
use uwuubox.Text.{Text, len, len_utf8}
use uwuubox.Mime.{
  clean, drop_dots, or_download, truncate, capped, sanitize_filename, is_control, push, ◌∷◌, codes,
  some, ltb, any, none, true, false,
}
use uwuubox.Ids.{base_name}

abbrev pub IsAscii : Text → Type 0
IsAscii s = All (λ c. c < 128) s

base_name-IsAscii : (s : Text) → IsAscii s → IsAscii (base_name s)
unfolding base_name
base_name-IsAscii [] h = tt
base_name-IsAscii (c ∷ s) (p, h) =
    elim (Bool-cases (any (λ d. (d == b'/') || (d == b'\\')) (c ∷ s))) [
      | inl behind ↦ subst IsAscii (sym (if_true _ _ behind)) (base_name-IsAscii s h)
      | inr last ↦ subst IsAscii (sym (if_false _ _ last)) (p, h)
    ]

clean-IsAscii : (s : Text) → IsAscii s → IsAscii (clean s)
unfolding clean
clean-IsAscii [] h = tt
clean-IsAscii (c ∷ s) (p, h) = elim (Bool-cases (is_control c)) [
  | inl control ↦ rw control (clean-IsAscii s h)
  | inr other ↦ rw other (ground arith, clean-IsAscii s h)
]

drop_dots-IsAscii : (s : Text) → IsAscii s → IsAscii (drop_dots s)
unfolding drop_dots
drop_dots-IsAscii [] h = tt
drop_dots-IsAscii (c ∷ s) (p, h) = elim (Bool-cases (c == b'.')) [
  | inl dot ↦ rw (dot, drop_dots) (drop_dots-IsAscii s h)
  | inr other ↦ rw (other, drop_dots) (p, h)
]

all-IsAscii : (s : Text) → all (λ c. ltb c 128) s ≡ true → IsAscii s
all-IsAscii [] h = tt
all-IsAscii (c ∷ s) h = (ground arith, all-IsAscii s (ground arith))

or_download-IsAscii : (s : Text) → IsAscii s → IsAscii (or_download s)
or_download-IsAscii [] h = all-IsAscii (codes "download") refl
or_download-IsAscii (c ∷ s) h = h

truncate-ascii : (n : ℕ) (s : Text) → IsAscii s → (t : Text) × (truncate n s ≡ some t)
unfolding truncate len_utf8
truncate-ascii n [] h = ([], refl)
truncate-ascii n (c ∷ s) (p, h) = elim (Bool-cases (n == 0)) [
  | inl none_left ↦ ([], if_true _ _ none_left)
  | inr some_left ↦
      (let (t, e) = truncate-ascii (n - len_utf8 c) s h in
        let fits : ltb n (len_utf8 c) ≡ false = ground arith in
        (c ∷ t, if_false _ _ some_left ∙ if_false _ _ fits ∙ ap (push c) e))
]

capped-ascii : (s : Text) → IsAscii s → (t : Text) × (capped s ≡ some t)
capped-ascii s h = elim (Bool-cases (ltb 128 (len s))) [
  | inl long ↦ (let (t, e) = truncate-ascii 128 s h in (t, if_true _ _ long ∙ e))
  | inr fits ↦ (s, if_false _ _ fits)
]

-- For a name of ASCII characters `sanitize_filename` returns a name: it does not panic.
pub sanitize_filename-ascii :
    (name : Text) → IsAscii name → (safe : Text) × (sanitize_filename name ≡ some safe)
unfolding sanitize_filename
sanitize_filename-ascii name h = capped-ascii (or_download (drop_dots (clean (base_name name)))) (
    or_download-IsAscii (drop_dots (clean (base_name name))) (
      drop_dots-IsAscii (clean (base_name name))
        (clean-IsAscii (base_name name) (base_name-IsAscii name h))))

truncate-inside :
    (a t : Text) (c n : ℕ) → len a < n → n < len a + len_utf8 c → truncate n (a ++ c ∷ t) ≡ none
unfolding truncate len
truncate-inside [] t c n h k = ground arith
truncate-inside (b ∷ a) t c n h k =
    let rest = truncate-inside a t c (n - len_utf8 b) (omega arith) (omega arith) in
    let left : (n == 0) ≡ false = ground arith in
    let fits : ltb n (len_utf8 b) ≡ false = ground arith in
    if_false _ _ left ∙ if_false _ _ fits ∙ ap (push b) rest

len-append : (a b : Text) → len (a ++ b) ≡ len a + len b
unfolding len
len-append [] b = omega arith
len-append (c ∷ a) b = let e = len-append a b in omega arith

-- If the cleaned name has a character that begins before byte 128 and ends after it,
-- `sanitize_filename` panics.
pub sanitize_filename-panics :
    (name a t : Text) (c : ℕ)
    → or_download (drop_dots (clean (base_name name))) ≡ a ++ c ∷ t
    → len a < 128
    → 128 < len a + len_utf8 c
    → sanitize_filename name ≡ none
unfolding sanitize_filename len
sanitize_filename-panics name a t c e h k =
    let size = len-append a (c ∷ t) in
    let long : ltb 128 (len (a ++ c ∷ t)) ≡ true = ground arith in
    ap capped e ∙ if_true _ _ long ∙ truncate-inside a t c 128 h k
