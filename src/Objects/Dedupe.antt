-- ===== src/Objects/Dedupe.antt =====
-- Two uploads of the same bytes at once: src/routes/upload.rs, `rollback_object`, over src/db.rs.
use uwuubox.Prelude.{◌≡◌, ◌∷◌, bytes_eq_refl, ap, if_false, ◌∙◌, refl, if_true}
use uwuubox.Prelude.Int.{ℤ, pos}
use uwuubox.Text.{Text}
use uwuubox.Objects.{
  ObjectRow, count_up, count_down, has_key, has_sha, fresh_row, with_refcount, acquire_object,
  release_object, insert_object, after_insert, List, Bytes, false, some, true, shared,
}

-- On a table with neither the digest nor the key, if one upload acquires a new object, a second
-- acquires the same digest, and the first is rolled back, then the row stays with one reference and
-- no one is told to delete or to write the bytes: only the first was told that the object is new.
pub acquire_object-shared_then_released :
    (rows : List ObjectRow) (sha256 : Bytes) (key other_key : Text) (size_bytes : ℤ)
    (mime_stored : Text)
    → has_sha sha256 rows ≡ false
    → has_key key rows ≡ false
    → let row = fresh_row sha256 key size_bytes mime_stored in
      (acquire_object rows sha256 key size_bytes mime_stored ≡ some (key, true, row ∷ rows))
      × (acquire_object (row ∷ rows) sha256 other_key size_bytes mime_stored
          ≡ some (key, false, with_refcount row (pos 2) ∷ rows))
      × (release_object (with_refcount row (pos 2) ∷ rows) key ≡ some (false, row ∷ rows))
unfolding acquire_object release_object insert_object count_up count_down
acquire_object-shared_then_released rows sha256 key other_key size_bytes mime_stored new fresh =
    let same = bytes_eq_refl sha256 in
    let at = bytes_eq_refl key in
    (
      ap (after_insert rows sha256 key) (if_false _ _ new ∙ if_false _ _ fresh),
      rw same (ap shared (if_true _ _ same)),
      rw (at) refl,
    )
