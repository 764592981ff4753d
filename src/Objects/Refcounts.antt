-- ===== src/Objects/Refcounts.antt =====
-- Proofs about src/db.rs: the table counts the references exactly, whatever is acquired and released.
use uwuubox.Prelude.{
  ℕ, ◌≡◌, suc, zero, arith, refl, Bool-cases, inl, subst, bytes_eq_sound, ◌∙◌, inr, ap, sym, ◌∷◌,
  if_true, if_false, bytes_eq_refl, ◌<◌, ◌==◌, [], none, some_eq,
}
use uwuubox.Prelude.Int.{ℤ, pos, ◌+ℤ◌, ◌-ℤ◌}
use uwuubox.Text.{Text}
use uwuubox.Objects.{
  ObjectRow, count_up, count_down, with_refcount, has_key, refcount_in, acquire_object,
  release_object, insert_object, delete_object, released, after_insert, List, bytes_eq, false, some,
  Bytes, Bool, keep_count, true, Option, has_sha, lowered_row, shared, fresh_row,
}
use uwuubox.Objects.References.{
  refcount_of, IsUnique, Counts, count, as_refcount, has_key-refcount_of, as_refcount-none,
  refcount_of-delete_same, refcount_of-delete_other, delete_object-IsUnique,
}
use uwuubox.Objects.Updates.{Sets, Sets-IsUnique, Sets-after, Sets-other, Sets-before}
use uwuubox.Objects.Counting.{count_up-Sets, count_down-cases}

count-same : (key : Text) (refs : List Text) → count key (key ∷ refs) ≡ suc (count key refs)
unfolding count
count-same key refs = if_true _ _ (bytes_eq_refl key)

count-other :
    (key k : Text) (refs : List Text) → bytes_eq key k ≡ false → count k (key ∷ refs) ≡ count k refs
unfolding count
count-other key k refs h = if_false _ _ h

-- One row that takes the number of its references.
Sets-Counts :
    {key : Text} {m n : ℤ} {rows rows' : List ObjectRow} (refs refs' : List Text)
    → Counts rows refs
    → Sets key m n rows rows'
    → some n ≡ as_refcount (count key refs')
    → ((k : Text) → bytes_eq key k ≡ false → count k refs' ≡ count k refs)
    → Counts rows' refs'
unfolding Counts
Sets-Counts {key} {m} {n} {rows} {rows'} refs refs' (u, c) s e others = (
  Sets-IsUnique s u,
  λ k. elim (Bool-cases (bytes_eq key k)) [
    | inl same ↦
        subst (λ t. refcount_of t rows' ≡ as_refcount (count t refs')) (bytes_eq_sound key k same)
          (Sets-after s u ∙ e)
    | inr other ↦ Sets-other k other s ∙ c k ∙ ap as_refcount (sym (others k other))
  ],
)

-- The number of a referenced object.
as_refcount-some :
    (n : ℕ) {m : ℤ} → as_refcount n ≡ some m → (c : ℕ) × (n ≡ suc c) × (m ≡ pos (suc c))
as_refcount-some zero h = cc
as_refcount-some (suc n) h = (n, refl, cc)

count_in-up : (c : ℕ) {n : ℤ} → refcount_in (pos (suc c) +ℤ pos 1) ≡ some n → n ≡ pos (suc (suc c))
unfolding ◌+ℤ◌
count_in-up c h = ground arith

count_in-down : (c : ℕ) {n : ℤ} → refcount_in (pos (suc c) -ℤ pos 1) ≡ some n → n ≡ pos c
unfolding ◌-ℤ◌
count_in-down c h = ground arith

inserted-Counts :
    (rows : List ObjectRow) (refs : List Text) (row : ObjectRow)
    → Counts rows refs
    → has_key row.storage_key rows ≡ false
    → row.refcount ≡ pos 1
    → Counts (row ∷ rows) (row.storage_key ∷ refs)
unfolding Counts IsUnique refcount_of
inserted-Counts rows refs row (u, c) fresh one = (
  (fresh, u),
  λ k. elim (Bool-cases (bytes_eq row.storage_key k)) [
    | inl same ↦
        (let at = bytes_eq_sound row.storage_key k same in
          let unused : count row.storage_key refs ≡ 0 =
            as_refcount-none _
              (sym (c row.storage_key) ∙ has_key-refcount_of row.storage_key rows fresh) in
          if_true _ _ same
          ∙ ap some one
          ∙ subst (λ t. some (pos 1) ≡ as_refcount (count t (row.storage_key ∷ refs))) at
              (sym (ap as_refcount (count-same row.storage_key refs ∙ ap suc unused))))
    | inr other ↦
        if_false _ _ other ∙ c k ∙ ap as_refcount (sym (count-other row.storage_key k refs other))
  ],
)

shared-Counts :
    (rows : List ObjectRow) (refs : List Text) (sha256 : Bytes) {key : Text}
    {rows' : List ObjectRow}
    → Counts rows refs
    → count_up rows sha256 ≡ some (key, rows')
    → Counts rows' (key ∷ refs)
unfolding Counts
shared-Counts rows refs sha256 {key} (u, c) h =
    let (m, n, bounded, s) = count_up-Sets rows sha256 h in
    let (d, at, is_m) = as_refcount-some (count key refs) (sym (c key) ∙ Sets-before s u) in
    let e : n ≡ pos (suc (suc d)) =
      count_in-up d (subst (λ z. refcount_in (z +ℤ pos 1) ≡ some n) is_m bounded) in
    Sets-Counts refs (key ∷ refs) (u, c) s
      (ap some e ∙ sym (ap as_refcount (count-same key refs ∙ ap suc at)))
      (λ k other. count-other key k refs other)

==→eq : (a b : ℕ) → (a == b) ≡ true → a ≡ b
==→eq a b h = ground arith

shared-some :
    (o : Option (Text × List ObjectRow)) {key : Text} {is_new : Bool} {rows' : List ObjectRow}
    → shared o ≡ some (key, is_new, rows')
    → o ≡ some (key, rows')
shared-some none h = cc
shared-some (some (k, rows)) h = cc

count_below : (c : ℕ) → c < 2_147_483_648 → refcount_in (pos (suc c) -ℤ pos 1) ≡ some (pos c)
unfolding ◌-ℤ◌
count_below c h = ground arith

released-last :
    (key : Text) (n : ℕ) (rows : List ObjectRow)
    → (n == 0) ≡ true
    → released key (some (some (pos n), rows)) ≡ some (n == 0, delete_object rows key)
released-last key n rows h = ground arith

released-more :
    (key : Text) (n : ℕ) (rows : List ObjectRow)
    → (n == 0) ≡ false
    → released key (some (some (pos n), rows)) ≡ some (n == 0, rows)
released-more key n rows h = ground arith

positive_count : (n : ℕ) → (n == 0) ≡ false → some (pos n) ≡ as_refcount n
positive_count zero h = cc
positive_count (suc n) h = refl

-- Taking a reference to an object, new or shared, counts it.
pub acquire_object-Counts :
    (rows : List ObjectRow) (refs : List Text) (sha256 : Bytes) (candidate_key : Text)
    (size_bytes : ℤ) (mime_stored key : Text) (is_new : Bool) (rows' : List ObjectRow)
    → Counts rows refs
    → acquire_object rows sha256 candidate_key size_bytes mime_stored ≡ some (key, is_new, rows')
    → Counts rows' (key ∷ refs)
unfolding acquire_object insert_object
acquire_object-Counts rows refs sha256 candidate_key size_bytes mime_stored key is_new rows' c h =
    elim (Bool-cases (has_sha sha256 rows)) [
      | inl dup ↦ shared-Counts rows refs sha256 c (
          shared-some (count_up rows sha256)
            (sym (ap (after_insert rows sha256 candidate_key) (if_true _ _ dup)) ∙ h))
      | inr new ↦ elim (Bool-cases (has_key candidate_key rows)) [
        | inl taken ↦
            (let e =
                sym (
                  ap (after_insert rows sha256 candidate_key)
                    (if_false _ _ new ∙ if_true _ _ taken))
                ∙ h in
              cc)
        | inr fresh ↦
            (let e =
                sym (
                  ap (after_insert rows sha256 candidate_key)
                    (if_false _ _ new ∙ if_false _ _ fresh))
                ∙ h in
              let at : candidate_key ≡ key = cc in
              let all : fresh_row sha256 candidate_key size_bytes mime_stored ∷ rows ≡ rows' = cc in
              subst (λ t. Counts rows' (t ∷ refs)) at
                (subst (λ t. Counts t (candidate_key ∷ refs)) all
                  (inserted-Counts rows refs _ c fresh refl)))
      ]
    ]

count_down-some :
    (rows : List ObjectRow) (key : Text) (c : ℕ)
    → refcount_of key rows ≡ some (pos (suc c))
    → c < 2_147_483_648
    → (rows' : List ObjectRow) × (count_down rows key ≡ some (some (pos c), rows'))
unfolding count_down refcount_of
count_down-some [] key c h small = cc
count_down-some (row ∷ rows) key c h small = elim (Bool-cases (bytes_eq row.storage_key key)) [
  | inl same ↦
      (let one : row.refcount ≡ pos (suc c) = some_eq (sym (if_true _ _ same) ∙ h) in
        (
          with_refcount row (pos c) ∷ rows,
          if_true _ _ same
              ∙ ap (lowered_row row rows)
                  (ap (λ z. refcount_in (z -ℤ pos 1)) one ∙ count_below c small),
        ))
  | inr other ↦
      (let (rows', e) = count_down-some rows key c (sym (if_false _ _ other) ∙ h) small in
        (row ∷ rows', if_false _ _ other ∙ ap (keep_count row) e))
]

-- If the table counts exactly the references `key ∷ refs`, and the key has fewer than 2^31 among
-- `refs`, then `release_object` of the key succeeds, the table counts exactly `refs`, and the
-- caller is told to delete the bytes exactly if the key is not among `refs`.
pub release_object-Counts :
    (rows : List ObjectRow) (refs : List Text) (key : Text)
    → Counts rows (key ∷ refs)
    → count key refs < 2_147_483_648
    → (rows' : List ObjectRow) × (release_object rows key ≡ some (count key refs == 0, rows'))
      × Counts rows' refs
unfolding release_object Counts
release_object-Counts rows refs key (u, c) small =
    let before = c key ∙ ap as_refcount (count-same key refs) in
    let (rows', e) = count_down-some rows key (count key refs) before small in
    elim (count_down-cases rows key e) [
      | inl (gone, absent) ↦ cc
      | inr (m, n, at, bounded, s) ↦
          (let is_n : pos (count key refs) ≡ n = some_eq at in
            let others : (k : Text) → bytes_eq key k ≡ false → count k refs ≡ count k (key ∷ refs) =
              λ k other. sym (count-other key k refs other) in
            elim (Bool-cases (count key refs == 0)) [
              | inl zero_left ↦ (
                delete_object rows' key,
                ap (released key) e ∙ released-last key (count key refs) rows' zero_left,
                (
                  delete_object-IsUnique key rows' (Sets-IsUnique s u),
                  λ k. elim (Bool-cases (bytes_eq key k)) [
                    | inl same ↦
                        subst
                          (λ t.
                            refcount_of t (delete_object rows' key) ≡ as_refcount (count t refs))
                          (bytes_eq_sound key k same)
                          (refcount_of-delete_same key rows'
                            ∙ sym (ap as_refcount (==→eq (count key refs) 0 zero_left)))
                    | inr other ↦
                        refcount_of-delete_other k key rows' other
                        ∙ Sets-other k other s
                        ∙ c k
                        ∙ ap as_refcount (sym (others k other))
                  ],
                ),
              )
              | inr some_left ↦ (
                rows',
                ap (released key) e ∙ released-more key (count key refs) rows' some_left,
                Sets-Counts (key ∷ refs) refs (u, c) s
                    (ap some (sym is_n) ∙ positive_count (count key refs) some_left) others,
              )
            ])
    ]
