-- ===== src/Ids/Names.antt =====
-- Proofs about src/ids.rs: a core and its extension, and the core that a lookup reads off a URL.
use uwuubox.Prelude.{
  ℕ, All, Bool-cases, ◌≤◌, not, ◌++◌, ◌≡◌, true, none, ◌==◌, ◌&&◌, ◌∷◌, inl, false, subst, if_false,
  arith, ◌∙◌, sym, refl, if_true, ap, inr, zero, ◌%◌,
}
use uwuubox.Text.{Text, len}
use uwuubox.Ids.{
  generate_core, strip_to_core, nth, alphabet, normalize_ext, kept_ext, lowered_ext, id_len,
  is_ext_char, [], Option, all, Bytes, leb, some, map, suc, take,
}

-- The alphabet, and the 0 that `nth` answers outside it, hold no dot.
no_dot : (s : Text) (n : ℕ) → all (λ c. not (c == b'.')) s ≡ true → (nth s n == b'.') ≡ false
no_dot [] n h = refl
no_dot (c ∷ s) zero h = ground arith
no_dot (c ∷ s) (suc n) h = no_dot s n (ground arith)

strip_to_core-ext :
    (core ext : Text)
    → All (λ c. (c == b'.') ≡ false) core
    → strip_to_core (b'.' ∷ ext) ≡ []
    → strip_to_core (core ++ b'.' ∷ ext) ≡ core
unfolding strip_to_core
strip_to_core-ext [] ext h k = refl
strip_to_core-ext (c ∷ core) ext (p, h) k =
    if_false _ _ p ∙ ap (λ s. c ∷ s) (strip_to_core-ext core ext h k)

map-alphabet : (bs : Bytes) → All (λ c. (c == b'.') ≡ false) (map (λ b. nth alphabet (b % 32)) bs)
map-alphabet [] = tt
map-alphabet (b ∷ bs) = (no_dot alphabet (b % 32) refl, map-alphabet bs)

-- A generated core followed by a dot and any text is looked up as that core.
pub strip_to_core-generate_core :
    (buf : Bytes) (ext : Text) → strip_to_core (generate_core buf ++ b'.' ∷ ext) ≡ generate_core buf
unfolding generate_core strip_to_core
strip_to_core-generate_core buf ext =
    strip_to_core-ext (map (λ b. nth alphabet (b % 32)) (take id_len buf)) ext
      (map-alphabet (take id_len buf)) refl

-- What an extension in a link may be.
pub data IsExt : Text → Type 0 where
  no_ext : IsExt []
  ext : (s : Text) → 2 ≤ len s → len s ≤ 10 → all is_ext_char s ≡ true → IsExt s

kept_ext-IsExt : (s : Text) → IsExt (kept_ext s)
kept_ext-IsExt s = elim (Bool-cases (leb 2 (len s) && leb (len s) 10 && all is_ext_char s)) [
  | inl good ↦
      subst IsExt (sym (if_true _ _ good)) (ext s (ground arith) (ground arith) (ground arith))
  | inr bad ↦ subst IsExt (sym (if_false _ _ bad)) no_ext
]

lowered_ext-IsExt : (lower : Text → Text) (o : Option Text) → IsExt (lowered_ext lower o)
lowered_ext-IsExt lower none = no_ext
lowered_ext-IsExt lower (some s) = kept_ext-IsExt (lower s)

-- The extension kept of a name is empty, or takes 2 to 10 bytes of lower-case letters, digits and
-- dots, whatever `to_lowercase` answers.
pub normalize_ext-IsExt : (lower : Text → Text) (name : Text) → IsExt (normalize_ext lower name)
unfolding normalize_ext
normalize_ext-IsExt lower name = lowered_ext-IsExt lower _
