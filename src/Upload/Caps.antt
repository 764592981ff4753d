-- ===== src/Upload/Caps.antt =====
-- Proofs about src/routes/upload.rs: what is spooled is the field, within the cap.
use uwuubox.Prelude.{
  ℕ, Bytes, [], length, ◌≡◌, ok, ◌+◌, ◌≤◌, ◌<◌, err, arith, length-append, Bool-cases, ltb,
  if◌then◌else◌, ◌++◌, ◌∷◌, ◌-◌, ap, inl, leb, ◌∙◌, sym, if_true, append-nil, inr, if_false, false,
  append_assoc,
}
use uwuubox.Prelude.Int.{ℤ, pos}
use uwuubox.Errors.{too_large}
use uwuubox.Upload.{Field, spool_chunks, spool_file_field, cap_bytes}

-- A field that reads to its end, with these bytes.
pub data Reads : Field → Bytes → Type 0 where
  ended : Reads [] []
  chunk :
      (b : Bytes) {chunks : Field} {rest : Bytes}
      → Reads chunks rest
      → Reads (ok b ∷ chunks) (b ++ rest)

spool_chunks-fits :
    (cap : ℕ) (spooled : Bytes) {chunks : Field} {rest : Bytes}
    → Reads chunks rest
    → length spooled + length rest ≤ cap
    → spool_chunks cap spooled chunks ≡ ok (spooled ++ rest)
unfolding spool_chunks
spool_chunks-fits cap spooled ended h = ap ok (sym (append-nil spooled))
spool_chunks-fits cap spooled (chunk b {chunks} {rest} r) h =
    let e = length-append b rest in
    let f = length-append spooled b in
    let room : ltb (cap - length spooled) (length b) ≡ false = ground arith in
    if_false _ _ room
    ∙ spool_chunks-fits cap (spooled ++ b) r (omega arith)
    ∙ ap ok (append_assoc spooled b rest)

spool_chunks-over :
    (cap : ℕ) (spooled : Bytes) {chunks : Field} {rest : Bytes}
    → Reads chunks rest
    → length spooled ≤ cap
    → cap < length spooled + length rest
    → spool_chunks cap spooled chunks ≡ err (too_large (pos cap))
unfolding spool_chunks
spool_chunks-over cap spooled ended h k = absurd (omega arith)
spool_chunks-over cap spooled (chunk b {chunks} {rest} r) h k =
    let e = length-append b rest in
    let f = length-append spooled b in
    elim (Bool-cases (ltb (cap - length spooled) (length b))) [
      | inl over ↦ if_true _ _ over
      | inr room ↦
          (let fits : length spooled + length b ≤ cap = ground arith in
            if_false _ _ room ∙ spool_chunks-over cap (spooled ++ b) r (omega arith) (omega arith))
    ]

-- A field that reads to its end is spooled whole if it is no longer than the cap, and refused with
-- the cap if it is longer, however it is cut into chunks.
pub spool_file_field-exact :
    (field : Field) (cap : ℤ) (body : Bytes)
    → Reads field body
    → spool_file_field field cap ≡ (
        if leb (length body) (cap_bytes cap)
        then ok body
        else err (too_large (pos (cap_bytes cap))))
unfolding spool_file_field
spool_file_field-exact field cap body r = elim (Bool-cases (leb (length body) (cap_bytes cap))) [
  | inl fits ↦ spool_chunks-fits (cap_bytes cap) [] r (ground arith) ∙ sym (if_true _ _ fits)
  | inr over ↦
      spool_chunks-over (cap_bytes cap) [] r (omega arith) (ground arith) ∙ sym (if_false _ _ over)
]
