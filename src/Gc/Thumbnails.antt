-- ===== src/Gc/Thumbnails.antt =====
-- Proofs about `inspect` of src/routes/gc.rs: what it says of the thumbnails that
-- src/routes/files.rs stores under `thumbs/`.
use uwuubox.Prelude.{
  ℕ, ◌≡◌, ◌∙◌, ap, sym, refl, subst, Bool, Bool-cases, inl, inr, if_true, if_false, true, false,
  List, [], ◌∷◌, ◌++◌, Option, none, some, any, map, arith, bytes_eq, bytes_eq_sound, bytes_eq_refl,
  ◌&&◌, codes,
}
use uwuubox.Prelude.Int.{pos, ltb_ℤ}
use uwuubox.Text.{Text, starts_with}
use uwuubox.Objects.{ObjectRow}
use uwuubox.Files.Rows.{World, Disk}
use uwuubox.Gc.{
  Orphan, Inventory, Reason, missing_bytes, is_missing, is_listed, inventory, stored_bytes,
  find_object, object_finding, finding, ltb_text, insert_key, key_set, find_orphans, orphan_of,
  inspect, as_size, object_key_of, storage_key_of, inventory_key,
}

abbrev is_key : Text → Text → Bool
is_key key k = bytes_eq k key

abbrev Has : Text → List Text → Type 0
Has key keys = any (is_key key) keys ≡ true

skip_true : (b r : Bool) → r ≡ true → elim b [ true ↦ true | false ↦ r ] ≡ true
skip_true true r h = refl
skip_true false r h = h

here_true : (b r : Bool) → b ≡ true → elim b [ true ↦ true | false ↦ r ] ≡ true
here_true true r h = refl
here_true false r h = cc

Has-first : (key k : Text) (keys : List Text) → bytes_eq k key ≡ true → Has key (k ∷ keys)
Has-first key k keys h = here_true (bytes_eq k key) (any (is_key key) keys) h

insert_key-same : (key : Text) (keys : List Text) → Has key (insert_key key keys)
unfolding insert_key
insert_key-same key [] = Has-first key key [] (bytes_eq_refl key)
insert_key-same key (k ∷ keys) = elim (Bool-cases (bytes_eq key k)) [
  | inl same ↦ subst (Has key) (sym (if_true _ _ same)) (
      Has-first key k keys
        (subst (λ t. bytes_eq t key ≡ true) (bytes_eq_sound key k same) (bytes_eq_refl key)))
  | inr other ↦ elim (Bool-cases (ltb_text key k)) [
    | inl before ↦
        subst (Has key) (sym (if_false _ _ other ∙ if_true _ _ before))
          (Has-first key key (k ∷ keys) (bytes_eq_refl key))
    | inr after ↦
        subst (Has key) (sym (if_false _ _ other ∙ if_false _ _ after))
          (skip_true (bytes_eq k key) _ (insert_key-same key keys))
  ]
]

insert_key-other : (key k : Text) (keys : List Text) → Has key keys → Has key (insert_key k keys)
unfolding insert_key
insert_key-other key k [] h = cc
insert_key-other key k (x ∷ keys) h = elim (Bool-cases (bytes_eq k x)) [
  | inl same ↦ subst (Has key) (sym (if_true _ _ same)) h
  | inr other ↦ elim (Bool-cases (ltb_text k x)) [
    | inl before ↦
        subst (Has key) (sym (if_false _ _ other ∙ if_true _ _ before))
          (skip_true (bytes_eq k key) _ h)
    | inr after ↦
        subst (Has key) (sym (if_false _ _ other ∙ if_false _ _ after))
          (elim (Bool-cases (bytes_eq x key)) [
            | inl here ↦ Has-first key x _ here
            | inr there ↦
                skip_true (bytes_eq x key) _ (insert_key-other key k keys (later x keys there h))
          ])
  ]
]
  where
    later :
        (x : Text) (keys : List Text) → bytes_eq x key ≡ false → Has key (x ∷ keys) → Has key keys
    later x keys there h =
        sym (ap (λ b. elim b [ true ↦ true | false ↦ any (is_key key) keys ]) there) ∙ h

key_set-Has : (key : Text) (keys : List Text) → Has key keys → Has key (key_set keys)
unfolding key_set
key_set-Has key [] h = h
key_set-Has key (k ∷ keys) h = elim (Bool-cases (bytes_eq k key)) [
  | inl here ↦
      subst (λ t. Has t (insert_key k (key_set keys))) (bytes_eq_sound k key here)
        (insert_key-same k (key_set keys))
  | inr there ↦ insert_key-other key k (key_set keys) (
      key_set-Has key keys
        (sym (ap (λ b. elim b [ true ↦ true | false ↦ any (is_key key) keys ]) there) ∙ h))
]

Has-append_right : (key : Text) (xs ys : List Text) → Has key ys → Has key (xs ++ ys)
Has-append_right key [] ys h = h
Has-append_right key (x ∷ xs) ys h = skip_true (bytes_eq x key) _ (Has-append_right key xs ys h)

Has-append_left : (key : Text) (xs ys : List Text) → Has key xs → Has key (xs ++ ys)
Has-append_left key [] ys h = cc
Has-append_left key (x ∷ xs) ys h = elim (Bool-cases (bytes_eq x key)) [
  | inl here ↦ Has-first key x _ here
  | inr there ↦ skip_true (bytes_eq x key) _ (
      Has-append_left key xs ys
        (sym (ap (λ b. elim b [ true ↦ true | false ↦ any (is_key key) xs ]) there) ∙ h))
]

find_object-Has :
    (key : Text) (rows : List ObjectRow) (row : ObjectRow)
    → find_object key rows ≡ some row
    → Has key (map object_key_of rows)
unfolding find_object
find_object-Has key [] row h = cc
find_object-Has key (r ∷ rows) row h = elim (Bool-cases (bytes_eq r.storage_key key)) [
  | inl here ↦ Has-first key r.storage_key _ here
  | inr there ↦
      skip_true (bytes_eq r.storage_key key) _
        (find_object-Has key rows row (sym (if_false _ _ there) ∙ h))
]

-- No listing holds a key outside its prefixes.
stored_bytes-unlisted :
    (key : Text) (disk : Disk) → is_listed key ≡ false → stored_bytes key (inventory disk) ≡ none
unfolding stored_bytes inventory
stored_bytes-unlisted key [] h = refl
stored_bytes-unlisted key ((k, b) ∷ disk) h = elim (Bool-cases (is_listed k)) [
  | inr out ↦ ap (stored_bytes key) (if_false _ _ out) ∙ stored_bytes-unlisted key disk h
  | inl listed ↦
      ap (stored_bytes key) (if_true _ _ listed)
      ∙ if_false _ _ (apart (bytes_eq k key) refl listed)
      ∙ stored_bytes-unlisted key disk h
]
  where
    apart : (same : Bool) → bytes_eq k key ≡ same → is_listed k ≡ true → bytes_eq k key ≡ false
    apart false e listed = e
    apart true e listed =
        let f : is_listed key ≡ true =
          subst (λ t. is_listed t ≡ true) (bytes_eq_sound k key e) listed in
        cc

-- The report says that the bytes of the key are missing.
abbrev pub reports_missing : Text → Orphan → Bool
reports_missing key orphan = bytes_eq orphan.key key && is_missing orphan.reason

find_orphans-missing :
    (file_keys avatar_keys : List Text) (objects : List ObjectRow) (inv : Inventory) (key : Text)
    (n : ℕ)
    → finding file_keys avatar_keys key (find_object key objects) (stored_bytes key inv)
      ≡ some (missing_bytes, n)
    → (keys : List Text) → Has key keys
    → any (reports_missing key) (find_orphans file_keys avatar_keys objects inv keys) ≡ true
unfolding find_orphans
find_orphans-missing file_keys avatar_keys objects inv key n e [] h = h
find_orphans-missing file_keys avatar_keys objects inv key n e (k ∷ keys) h =
    elim (Bool-cases (bytes_eq k key)) [
      | inl here ↦
          subst
            (λ o.
              any (reports_missing key)
                (orphan_of k o (find_orphans file_keys avatar_keys objects inv keys))
              ≡ true)
            (sym (
              subst
                (λ t.
                  finding file_keys avatar_keys t (find_object t objects) (stored_bytes t inv)
                  ≡ some (missing_bytes, n))
                (sym (bytes_eq_sound k key here)) e))
            (here_true (bytes_eq k key && true) _ (ground arith))
      | inr there ↦ kept _ (find_orphans file_keys avatar_keys objects inv keys) (
          find_orphans-missing file_keys avatar_keys objects inv key n e keys
            (sym (ap (λ b. elim b [ true ↦ true | false ↦ any (is_key key) keys ]) there) ∙ h))
    ]
  where
    kept :
        (o : Option (Reason × ℕ)) (rest : List Orphan)
        → any (reports_missing key) rest ≡ true
        → any (reports_missing key) (orphan_of k o rest) ≡ true
    kept none rest h = h
    kept (some (reason, m)) rest h = skip_true (bytes_eq k key && is_missing reason) _ h

unlisted : (name : Text) → is_listed (codes "thumbs/" ++ name) ≡ false
unfolding starts_with
unlisted name = refl

held_finding :
    (row : ObjectRow)
    → ltb_ℤ (pos 0) row.refcount ≡ true
    → object_finding row none ≡ some (missing_bytes, as_size row.size_bytes)
held_finding row held = if_true _ _ held

finding-thumbnail :
    (file_keys avatar_keys : List Text) (key : Text) (o : Option ObjectRow) (found : Option ℕ)
    (row : ObjectRow)
    → o ≡ some row
    → found ≡ none
    → ltb_ℤ (pos 0) row.refcount ≡ true
    → finding file_keys avatar_keys key o found ≡ some (missing_bytes, as_size row.size_bytes)
unfolding finding
finding-thumbnail file_keys avatar_keys key o found row e f held = rw (e, f) (held_finding row held)

-- Whatever is on disk, `inspect` reports the bytes of every object with a positive count under a
-- key that begins with `thumbs/` as missing.
pub inspect-thumbnails :
    (w : World) (avatar_keys : List Text) (name : Text) (row : ObjectRow)
    → find_object (codes "thumbs/" ++ name) w.objects ≡ some row
    → ltb_ℤ (pos 0) row.refcount ≡ true
    → any (reports_missing (codes "thumbs/" ++ name)) (inspect w avatar_keys).0.orphans ≡ true
unfolding inspect
inspect-thumbnails w avatar_keys name row found held =
    let key = codes "thumbs/" ++ name in
    let file_keys = map storage_key_of w.files in
    let listed = map inventory_key (inventory w.disk) in
    let object_keys = map object_key_of w.objects in
    find_orphans-missing file_keys avatar_keys w.objects (inventory w.disk) key
      (as_size row.size_bytes)
      (finding-thumbnail file_keys avatar_keys key (find_object key w.objects)
        (stored_bytes key (inventory w.disk)) row found
        (stored_bytes-unlisted key w.disk (unlisted name)) held)
      (key_set (listed ++ (object_keys ++ (avatar_keys ++ file_keys))))
      (key_set-Has key (listed ++ (object_keys ++ (avatar_keys ++ file_keys))) (
        Has-append_right key listed (object_keys ++ (avatar_keys ++ file_keys)) (
          Has-append_left key object_keys (avatar_keys ++ file_keys)
            (find_object-Has key w.objects row found))))
