-- ===== src/Objects/Totality.antt =====
-- Proofs about src/db.rs, `acquire_object`: when it succeeds.
use uwuubox.Objects.Refcounts.{acquire_object-Counts}
use uwuubox.Prelude.{
  ℕ, ◌<◌, All, ◌≡◌, ◌≤◌, length, arith, suc, ◌+◌, some_eq, [], Bool-cases, bytes_eq_refl, zero, sym,
  inl, if_true, ap, ◌∙◌, inr, ◌||◌, if_false, subst, bytes_eq_sound, refl,
}
use uwuubox.Prelude.Int.{ℤ, pos, ◌+ℤ◌}
use uwuubox.Text.{Text}
use uwuubox.Objects.{
  ObjectRow, has_key, has_sha, count_up, insert_object, acquire_object, after_insert, refcount_in,
  counted_row, keep_row, with_refcount, shared, some, List, Bytes, false, true, Bool, ◌∷◌, bytes_eq,
  fresh_row,
}
use uwuubox.Objects.References.{Counts, count, refcount_of, IsUnique, as_refcount}

-- Every number can still go up.
abbrev pub HasRoom : List ObjectRow → Type 0
HasRoom rows = All (λ row. (c : ℕ) × (row.refcount ≡ pos c) × (c < 2_147_483_647)) rows

count-length : (k : Text) (refs : List Text) → count k refs ≤ length refs
unfolding count
count-length k [] = omega arith
count-length k (r ∷ refs) = ground (arith, count-length k refs)

as_refcount-bound :
    (n : ℕ) (z : ℤ) (bound : ℕ)
    → some z ≡ as_refcount n
    → n ≤ bound
    → (c : ℕ) × (z ≡ pos c) × (c ≤ bound)
as_refcount-bound zero z bound h k = cc
as_refcount-bound (suc n) z bound h k = (suc n, some_eq h, k)

-- The rows of a part of the table whose keys stand in it as in the whole.
rows-HasRoom :
    (whole rows : List ObjectRow) (refs : List Text)
    → length refs < 2_147_483_647
    → ((k : Text) → refcount_of k whole ≡ as_refcount (count k refs))
    → ((k : Text) → has_key k rows ≡ true → refcount_of k rows ≡ refcount_of k whole)
    → IsUnique rows
    → HasRoom rows
unfolding refcount_of IsUnique
rows-HasRoom whole [] refs small c same u = tt
rows-HasRoom whole (row ∷ rows) refs small c same (p, u) =
    let self = bytes_eq_refl row.storage_key in
    let at : some row.refcount ≡ as_refcount (count row.storage_key refs) =
      sym (if_true _ _ self)
      ∙ same row.storage_key (ap (λ b. b || has_key row.storage_key rows) self)
      ∙ c row.storage_key in
    let (n, e, le) =
      as_refcount-bound (count row.storage_key refs) row.refcount (length refs) at
        (count-length row.storage_key refs) in
    (
      (n, e, omega arith),
      rows-HasRoom whole rows refs small c
          (λ k there. elim (Bool-cases (bytes_eq row.storage_key k)) [
            | inl hit ↦
                (let absent : has_key k rows ≡ false =
                    subst (λ t. has_key t rows ≡ false) (bytes_eq_sound row.storage_key k hit) p in
                  cc)
            | inr miss ↦
                sym (if_false _ _ miss) ∙ same k (ap (λ b. b || has_key k rows) miss ∙ there)
          ])
          u,
    )

count_above : (c : ℕ) → c < 2_147_483_647 → refcount_in (pos c +ℤ pos 1) ≡ some (pos (c + 1))
unfolding ◌+ℤ◌
count_above c h = ground arith

count_up-some :
    (rows : List ObjectRow) (sha256 : Bytes)
    → HasRoom rows
    → has_sha sha256 rows ≡ true
    → (key : Text) × (rows' : List ObjectRow) × (count_up rows sha256 ≡ some (key, rows'))
unfolding count_up
count_up-some [] sha256 room h = cc
count_up-some (row ∷ rows) sha256 ((c, e, small), room) h =
    elim (Bool-cases (bytes_eq row.sha256 sha256)) [
      | inl same ↦ (
        row.storage_key,
        with_refcount row (pos (c + 1)) ∷ rows,
        if_true _ _ same
            ∙ ap (counted_row row rows)
                (ap (λ z. refcount_in (z +ℤ pos 1)) e ∙ count_above c small),
      )
      | inr other ↦
          (let (key, rows', f) =
              count_up-some rows sha256 room (sym (ap (λ b. b || has_sha sha256 rows) other) ∙ h) in
            (key, row ∷ rows', if_false _ _ other ∙ ap (keep_row row) f))
    ]

-- If the table counts exactly the references `refs`, fewer than 2^31 - 1, and does not hold the
-- candidate key, then `acquire_object` succeeds with a key, new or shared, and the new table counts
-- exactly `key ∷ refs`.
pub acquire_object-succeeds :
    (rows : List ObjectRow) (refs : List Text) (sha256 : Bytes) (candidate_key : Text)
    (size_bytes : ℤ) (mime_stored : Text)
    → Counts rows refs
    → length refs < 2_147_483_647
    → has_key candidate_key rows ≡ false
    → (key : Text) × (is_new : Bool) × (rows' : List ObjectRow) × (acquire_object rows sha256
          candidate_key size_bytes mime_stored
        ≡ some (key, is_new, rows'))
      × Counts rows' (key ∷ refs)
unfolding acquire_object insert_object Counts
acquire_object-succeeds rows refs sha256 candidate_key size_bytes mime_stored (u, c) small fresh =
    let room = rows-HasRoom rows rows refs small c (λ k there. refl) u in
    elim (Bool-cases (has_sha sha256 rows)) [
      | inl dup ↦
          (let (key, rows', e) = count_up-some rows sha256 room dup in
            let f = ap (after_insert rows sha256 candidate_key) (if_true _ _ dup) ∙ ap shared e in
            (
              key,
              false,
              rows',
              f,
              acquire_object-Counts rows refs sha256 candidate_key size_bytes mime_stored key false
                  rows' (u, c) f,
            ))
      | inr new ↦
          (let f =
              ap (after_insert rows sha256 candidate_key) (if_false _ _ new ∙ if_false _ _ fresh) in
            (
              candidate_key,
              true,
              fresh_row sha256 candidate_key size_bytes mime_stored ∷ rows,
              f,
              acquire_object-Counts rows refs sha256 candidate_key size_bytes mime_stored
                  candidate_key true (fresh_row sha256 candidate_key size_bytes mime_stored ∷ rows)
                  (u, c) f,
            ))
    ]
