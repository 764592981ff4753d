-- ===== src/Upload/Storing.antt =====
-- Proofs about the end of `upload_inner` of src/routes/upload.rs: when the upload goes through.
use uwuubox.Prelude.{
  ◌<◌, ◌≡◌, ◌∙◌, ◌⊎◌, ap, sym, subst, refl, true, false, inl, inr, Bool, Bool-cases, List, Bytes,
  ◌∷◌, Option, none, some, ok, length, bytes_eq, bytes_eq_sound, codes, if_false, if_true,
  bytes_eq_refl, if◌then◌else◌,
}
use uwuubox.Prelude.Int.{pos}
use uwuubox.Text.{Text}
use uwuubox.Storage.{file_key}
use uwuubox.Objects.{ObjectRow, has_key, has_sha, Acquired, fresh_row}
use uwuubox.Objects.References.{Counts, count}
use uwuubox.Objects.Refcounts.{acquire_object-Counts}
use uwuubox.Objects.Totality.{acquire_object-succeeds}
use uwuubox.Objects.Acquiring.{
  key_of_sha, acquire_object-shared, acquire_object-new, acquire_object-unheld, Counts-has_key,
}
use uwuubox.Files.Rows.{
  FileRow, World, Disk, Erase, Outcome, with_objects, with_disk, find_file, disk_get,
}
use uwuubox.Files.References.{refs_of}
use uwuubox.Upload.Commit.{
  Write, store_picture, store_thumbnail, stored_thumb, kept_thumb, thumb_candidate, insert_row,
  inserted, after_write, after_acquire, commit, with_keys,
}
use uwuubox.Upload.Sharing.{Holding, PictureHolding}
use uwuubox.Upload.Undoing.{store_picture-Holding}

-- A write that succeeds: the bytes are under the key, and the other keys keep theirs.
pub record IsWritten (write : Write) (key : Text) (bytes : Bytes) (disk : Disk) : Type 0 where
  pub disk' : Disk
  pub done : write key bytes disk ≡ (ok tt, disk')
  pub others :
      (k : Text) → disk_get k disk' ≡ (if bytes_eq key k then some bytes else disk_get k disk)

-- The bytes are those that an object with the digest had before, or they are new under a new key.
abbrev pub HasBytes : FileRow → Bytes → World → Text → Disk → Type 0
HasBytes draft bytes before key disk =
    ((key_of_sha draft.sha256 before.objects ≡ some key)
      × (disk_get key disk ≡ disk_get key before.disk))
    ⊎ ((has_sha draft.sha256 before.objects ≡ false)
        × (key ≡ file_key draft.id_core draft.ext)
        × (disk_get key disk ≡ some bytes))

-- The draft with its two keys is the first row, and is the answer, and its bytes are under its key.
pub record Stores (draft : FileRow) (bytes : Bytes) (before : World) (o : Outcome FileRow)
    : Type 0 where
  pub key : Text
  pub thumb : Option Text
  pub after : World
  pub answered : o ≡ (ok (record draft { storage_key = key; thumb_key = thumb }), after)
  pub added : after.files ≡ record draft { storage_key = key; thumb_key = thumb } ∷ before.files
  pub kept : HasBytes draft bytes before key after.disk

module _ (erase : Erase) (write : Write)
    (writes : (key : Text) (bytes : Bytes) (disk : Disk) → IsWritten write key bytes disk) where
  abbrev pub disk_after : Option Text × World → Disk
  disk_after p = p.1.disk

  kept_thumb-disk :
      (key k : Text) (jpeg : Bytes) (w : World)
      → bytes_eq key k ≡ false
      → disk_get k (disk_after (kept_thumb erase write key w (write key jpeg w.disk)))
        ≡ disk_get k w.disk
  kept_thumb-disk key k jpeg w other =
      let done = writes key jpeg w.disk in
      ap (λ r. disk_get k (disk_after (kept_thumb erase write key w r))) done.done
      ∙ (done.others k ∙ if_false _ _ other)

  -- A picture goes under a key of its own.
  stored_thumb-disk :
      (k : Text) (jpeg : Bytes) (w : World) (o : Acquired)
      → ((key : Text) (objects : List ObjectRow)
          → o ≡ some (key, true, objects)
          → bytes_eq key k ≡ false)
      → disk_get k (disk_after (stored_thumb erase write jpeg w o)) ≡ disk_get k w.disk
  stored_thumb-disk k jpeg w none apart = refl
  stored_thumb-disk k jpeg w (some (key, false, objects)) apart = refl
  stored_thumb-disk k jpeg w (some (key, true, objects)) apart =
      kept_thumb-disk key k jpeg (with_objects w objects) (apart key objects refl)

  unheld-apart :
      (key k : Text) (rows : List ObjectRow)
      → has_key key rows ≡ false
      → has_key k rows ≡ true
      → bytes_eq key k ≡ false
  unheld-apart key k rows absent there = elim (Bool-cases (bytes_eq key k)) [
    | inl same ↦
        (let e : false ≡ true =
            sym absent ∙ (ap (λ t. has_key t rows) (bytes_eq_sound key k same) ∙ there) in
          cc)
    | inr other ↦ other
  ]

  store_picture-disk :
      (core k : Text) (picture : Option (Bytes × Bytes)) (w : World)
      → has_key k w.objects ≡ true
      → disk_get k (disk_after (store_picture erase write core picture w)) ≡ disk_get k w.disk
  unfolding store_picture store_thumbnail
  store_picture-disk core k none w there = refl
  store_picture-disk core k (some (digest, jpeg)) w there =
      stored_thumb-disk k jpeg w _ (λ key objects e.
        unheld-apart key k w.objects
          (acquire_object-unheld w.objects digest (thumb_candidate erase write core)
            (pos (length jpeg)) (codes "image/jpeg") key objects e)
          there)

  module _ (before : World) (counts : Counts before.objects (refs_of before.files))
      (small : (k : Text) → count k (refs_of before.files) < 2_147_483_646) (draft : FileRow)
      (fresh : find_file draft.id_core before.files ≡ none) (bytes : Bytes)
      (picture : Option (Bytes × Bytes)) where
    insert_row-Stores :
        (key : Text) (p : Option Text × World)
        → PictureHolding erase write before.files (key ∷ refs_of before.files) p
        → HasBytes draft bytes before key (disk_after p)
        → Stores draft bytes before (insert_row erase write draft key p)
    unfolding insert_row
    insert_row-Stores key (o, w) h kept = record {
      key = key;
      thumb = o;
      after = _;
      answered =
          ap (inserted erase write draft key (o, w)) (ap (find_file draft.id_core) h.files ∙ fresh);
      added = ap (λ files. with_keys draft key o ∷ files) h.files;
      kept = kept;
    }

    -- The picture does not touch the object.
    picture-HasBytes :
        (key : Text) (w : World)
        → has_key key w.objects ≡ true
        → HasBytes draft bytes before key w.disk
        → HasBytes draft bytes before key
            (disk_after (store_picture erase write draft.id_core picture w))
    picture-HasBytes key w there (inl (at, same)) =
        inl (at, store_picture-disk draft.id_core key picture w there ∙ same)
    picture-HasBytes key w there (inr (new, at, here)) =
        inr (new, at, store_picture-disk draft.id_core key picture w there ∙ here)

    picture-Stores :
        (key : Text) (w : World)
        → Holding before.files (key ∷ refs_of before.files) w
        → HasBytes draft bytes before key w.disk
        → Stores draft bytes before
            (insert_row erase write draft key (store_picture erase write draft.id_core picture w))
    picture-Stores key w h kept =
        insert_row-Stores key _
          (store_picture-Holding erase write before counts small draft.id_core key picture w h)
          (picture-HasBytes key w (Counts-has_key key (refs_of before.files) w.objects h.counted)
            kept)

    written-Stores :
        (key : Text) (objects : List ObjectRow)
        → Counts objects (key ∷ refs_of before.files)
        → has_sha draft.sha256 before.objects ≡ false
        → key ≡ file_key draft.id_core draft.ext
        → Stores draft bytes before
            (after_acquire erase write draft picture bytes before (some (key, true, objects)))
    written-Stores key objects c new at =
        let w = writes key bytes before.disk in
        subst
          (λ r.
            Stores draft bytes before
              (after_write erase write draft picture key (with_objects before objects) r))
          (sym w.done)
          (picture-Stores key (with_disk (with_objects before objects) w.disk')
            (record { files = refl; counted = c })
            (inr (new, at, w.others key ∙ if_true _ _ (bytes_eq_refl key))))

    shared-Stores :
        (key : Text) (is_new : Bool) (objects : List ObjectRow)
        → Counts objects (key ∷ refs_of before.files)
        → is_new ≡ false
        → key_of_sha draft.sha256 before.objects ≡ some key
        → Stores draft bytes before
            (after_acquire erase write draft picture bytes before (some (key, is_new, objects)))
    shared-Stores key true objects c old at = cc
    shared-Stores key false objects c old at =
        picture-Stores key (with_objects before objects) (record { files = refl; counted = c })
          (inl (at, refl))

    -- If the table of objects counts exactly the references of the rows of files, each fewer
    -- than 2^31 - 2 and all of them fewer than 2^31 - 1, no row has the core and the table does
    -- not hold the new key, then, on a backend where every write succeeds, puts its bytes under
    -- its key and leaves the other keys alone, `commit` succeeds, the draft with its keys is
    -- the answer and the one new row, and its storage key is that of the object with the same
    -- digest, with the bytes it had, or, if there is none, the new key, with the bytes of the
    -- upload.
    pub commit-Stores :
        length (refs_of before.files) < 2_147_483_647
        → has_key (file_key draft.id_core draft.ext) before.objects ≡ false
        → Stores draft bytes before (commit erase write draft bytes picture before)
    unfolding commit
    commit-Stores few unheld =
        let candidate = file_key draft.id_core draft.ext in
        let size = pos (length bytes) in
        let (key, is_new, objects, e, c) =
          acquire_object-succeeds before.objects (refs_of before.files) draft.sha256 candidate size
            draft.mime_stored counts few unheld in
        let ends : Acquired → Type 0 =
          λ o. Stores draft bytes before (after_acquire erase write draft picture bytes before o) in
        elim (Bool-cases (has_sha draft.sha256 before.objects)) [
          | inl there ↦
              (let (old, at) =
                  acquire_object-shared before.objects draft.sha256 candidate size draft.mime_stored
                    key is_new objects there e in
                subst ends (sym e) (shared-Stores key is_new objects c old at))
          | inr new ↦
              (let f =
                  acquire_object-new before.objects draft.sha256 candidate size draft.mime_stored
                    new unheld in
                subst ends (sym f) (
                  written-Stores candidate
                    (fresh_row draft.sha256 candidate size draft.mime_stored ∷ before.objects)
                    (acquire_object-Counts before.objects (refs_of before.files) draft.sha256
                      candidate size draft.mime_stored candidate true _ counts f)
                    new refl))
        ]
