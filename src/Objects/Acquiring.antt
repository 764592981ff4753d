-- ===== src/Objects/Acquiring.antt =====
-- Proofs about `acquire_object` of src/db.rs: which key it answers.
use uwuubox.Prelude.{
  ◌≡◌, ◌∙◌, ap, sym, Bool, Bool-cases, inl, inr, if_true, if_false, true, false, List, Bytes, [],
  ◌∷◌, Option, none, some, bytes_eq, bytes_eq_refl, if◌then◌else◌, suc,
}
use uwuubox.Prelude.Int.{ℤ, pos}
use uwuubox.Text.{Text}
use uwuubox.Objects.{
  ObjectRow, has_sha, has_key, count_up, acquire_object, after_insert, insert_object, fresh_row,
  shared, Acquired,
}
use uwuubox.Objects.Counting.{keep_row-some, counted_row-some}
use uwuubox.Objects.References.{Counts, count, has_key-refcount_of, as_refcount}

-- The key of the object with this digest.
unfoldable pub key_of_sha : Bytes → List ObjectRow → Option Text
key_of_sha sha256 [] = none
key_of_sha sha256 (row ∷ rows) =
    if bytes_eq row.sha256 sha256 then some row.storage_key else key_of_sha sha256 rows

count_up-key :
    (rows : List ObjectRow) (sha256 : Bytes) (key : Text) (rows' : List ObjectRow)
    → count_up rows sha256 ≡ some (key, rows')
    → key_of_sha sha256 rows ≡ some key
unfolding count_up key_of_sha
count_up-key [] sha256 key rows' h = cc
count_up-key (row ∷ rows) sha256 key rows' h = elim (Bool-cases (bytes_eq row.sha256 sha256)) [
  | inl same ↦
      (let (n, e, at, all) = counted_row-some row rows _ (sym (if_true _ _ same) ∙ h) in
        if_true _ _ same ∙ ap some (sym at))
  | inr other ↦
      (let (left, e, f) = keep_row-some row (count_up rows sha256) (sym (if_false _ _ other) ∙ h) in
        if_false _ _ other ∙ count_up-key rows sha256 key left e)
]

module _ (rows : List ObjectRow) (sha256 : Bytes) (candidate_key : Text) (size_bytes : ℤ)
    (mime_stored : Text) where
  abbrev acquired : Acquired
  acquired = acquire_object rows sha256 candidate_key size_bytes mime_stored

  shared_key :
      (o : Option (Text × List ObjectRow)) (key : Text) (is_new : Bool) (rows' : List ObjectRow)
      → shared o ≡ some (key, is_new, rows')
      → (o ≡ some (key, rows')) × (is_new ≡ false)
  shared_key none key is_new rows' h = cc
  shared_key (some (k, left)) key is_new rows' h = (cc, cc)

  -- The digest is there: the key is that of its object, and no bytes are to be written.
  pub acquire_object-shared :
      (key : Text) (is_new : Bool) (rows' : List ObjectRow)
      → has_sha sha256 rows ≡ true
      → acquired ≡ some (key, is_new, rows')
      → (is_new ≡ false) × (key_of_sha sha256 rows ≡ some key)
  unfolding acquire_object insert_object
  acquire_object-shared key is_new rows' there h =
      let (e, old) =
        shared_key (count_up rows sha256) key is_new rows'
          (sym (ap (after_insert rows sha256 candidate_key) (if_true _ _ there)) ∙ h) in
      (old, count_up-key rows sha256 key rows' e)

  -- Neither the digest nor the key is there: the object is new, under this key.
  pub acquire_object-new :
      has_sha sha256 rows ≡ false
      → has_key candidate_key rows ≡ false
      → acquired
        ≡ some (candidate_key, true, fresh_row sha256 candidate_key size_bytes mime_stored ∷ rows)
  unfolding acquire_object insert_object
  acquire_object-new new fresh =
      ap (after_insert rows sha256 candidate_key) (if_false _ _ new ∙ if_false _ _ fresh)

  -- A new object has a key that was not there.
  pub acquire_object-unheld :
      (key : Text) (rows' : List ObjectRow)
      → acquired ≡ some (key, true, rows')
      → has_key key rows ≡ false
  unfolding acquire_object insert_object
  acquire_object-unheld key rows' h = elim (Bool-cases (has_sha sha256 rows)) [
    | inl there ↦
        (let (e, old) =
            shared_key (count_up rows sha256) key true rows'
              (sym (ap (after_insert rows sha256 candidate_key) (if_true _ _ there)) ∙ h) in
          cc)
    | inr new ↦ elim (Bool-cases (has_key candidate_key rows)) [
      | inl taken ↦
          (let e =
              sym
                (ap (after_insert rows sha256 candidate_key) (if_false _ _ new ∙ if_true _ _ taken))
              ∙ h in
            cc)
      | inr fresh ↦
          (let e =
              sym (
                ap (after_insert rows sha256 candidate_key) (if_false _ _ new ∙ if_false _ _ fresh))
              ∙ h in
            let at : candidate_key ≡ key = cc in sym (ap (λ k. has_key k rows) at) ∙ fresh)
    ]
  ]

-- A key with a reference is there.
pub Counts-has_key :
    (key : Text) (refs : List Text) (rows : List ObjectRow)
    → Counts rows (key ∷ refs)
    → has_key key rows ≡ true
unfolding Counts count
Counts-has_key key refs rows (u, c) = elim (Bool-cases (has_key key rows)) [
  | inl there ↦ there
  | inr absent ↦
      (let e : none ≡ some (pos (suc (count key refs))) =
          sym (has_key-refcount_of key rows absent)
          ∙ (c key ∙ ap as_refcount (if_true _ _ (bytes_eq_refl key))) in
        cc)
]
