-- ===== src/Range/Bounds.antt =====
-- Proofs about the ranges that `parse` of src/range.rs answers: where they lie.
use uwuubox.Prelude.{
  ℕ, Option, ◌≤◌, some, ◌<◌, ◌≡◌, ◌∷◌, Bool-cases, codes, none, arith, [], ◌||◌, ◌==◌, inl, leb,
  inr, any, false, min, ◌-◌, refl,
}
use uwuubox.Range.{
  RangeOutcome, full, satisfiable, invalid, unsatisfiable, parse_spec, parse_parts, parse,
  closed_range, requested_end, suffix_range, Text, decimal, strip_prefix, is_empty, trim,
  contains_char, is_whitespace, unwrap_or, open_range, not_before, split_once,
}

-- The outcome holds no range, or one inside an object of `len` bytes.
unfoldable pub InObject : ℕ → RangeOutcome → Type 0
InObject len full = Unit
InObject len (satisfiable s e) = (s ≤ e) × (e < len)
InObject len invalid = Unit
InObject len unsatisfiable = Unit

suffix_range-InObject : (n : Option ℕ) (len : ℕ) → InObject len (suffix_range n len)
unfolding suffix_range InObject
suffix_range-InObject none len = tt
suffix_range-InObject (some n) len = elim (Bool-cases ((n == 0) || (len == 0))) [
  | inl empty ↦ rw empty tt
  | inr rest ↦ rw rest (ground arith)
]

closed_inside :
    (s : ℕ) (requested : Option ℕ) (len : ℕ)
    → ((r : ℕ) → some requested ≡ some (some r) → s ≤ r)
    → ((len == 0) || leb len s) ≡ false
    → (s ≤ min (unwrap_or requested (len - 1)) (len - 1))
      × (min (unwrap_or requested (len - 1)) (len - 1) < len)
closed_inside s none len h inside = ground arith
closed_inside s (some r) len h inside = ground (arith, h r refl)

closed_range-InObject :
    (s : ℕ) (e : Option (Option ℕ)) (len : ℕ)
    → ((r : ℕ) → e ≡ some (some r) → s ≤ r)
    → InObject len (closed_range s e len)
unfolding closed_range InObject
closed_range-InObject s none len h = tt
closed_range-InObject s (some requested) len h = elim (Bool-cases ((len == 0) || leb len s)) [
  | inl outside ↦ rw outside tt
  | inr inside ↦ rw inside (closed_inside s requested len h inside)
]

not_before-after : (s : ℕ) (end : Option ℕ) (r : ℕ) → not_before s end ≡ some (some r) → s ≤ r
not_before-after s none r h = cc
not_before-after s (some n) r h = ground arith

requested_end-after : (s : ℕ) (last : Text) (r : ℕ) → requested_end s last ≡ some (some r) → s ≤ r
unfolding requested_end
requested_end-after s [] r h = cc
requested_end-after s (c ∷ t) r h = not_before-after s (decimal (c ∷ t)) r h

open_range-InObject :
    (start : Option ℕ) (last : Text) (len : ℕ) → InObject len (open_range start last len)
unfolding InObject
open_range-InObject none last len = tt
open_range-InObject (some start) last len =
    closed_range-InObject start (requested_end start last) len (requested_end-after start last)

parse_parts-InObject :
    (parts : Option (Text × Text)) (len : ℕ) → InObject len (parse_parts parts len)
unfolding parse_parts InObject
parse_parts-InObject none len = tt
parse_parts-InObject (some ([], last)) len = suffix_range-InObject (decimal last) len
parse_parts-InObject (some (c ∷ first, last)) len =
    open_range-InObject (decimal (c ∷ first)) last len

parse_spec-InObject : (spec : Option Text) (len : ℕ) → InObject len (parse_spec spec len)
unfolding parse_spec InObject
parse_spec-InObject none len = tt
parse_spec-InObject (some spec) len =
    elim (Bool-cases (is_empty spec || contains_char b',' spec || any is_whitespace spec)) [
      | inl bad ↦ rw bad tt
      | inr good ↦ rw good (parse_parts-InObject (split_once b'-' spec) len)
    ]

-- For every header and length, a range that `parse` finds satisfiable starts no later than it ends,
-- and ends inside the object.
pub parse-InObject : (header : Option Text) (len : ℕ) → InObject len (parse header len)
unfolding parse InObject
parse-InObject none len = tt
parse-InObject (some header) len =
    parse_spec-InObject (strip_prefix (codes "bytes=") (trim header)) len

-- The outcomes that bytes are sent for.
pub data IsSent : RangeOutcome → Type 0 where
  whole : IsSent full
  part : (start end : ℕ) → IsSent (satisfiable start end)
