-- ===== src/Upload/Undoing.antt =====
-- Proofs about the end of `upload_inner` of src/routes/upload.rs: a row goes in with its references, or
-- everything is undone.
use uwuubox.Prelude.{
  ℕ, ◌+◌, ◌<◌, ◌≤◌, ◌≡◌, ap, sym, refl, subst, true, false, List, Bytes, ◌∷◌, Option, none, some,
  Result, ok, err, length, arith,
}
use uwuubox.Prelude.Int.{pos}
use uwuubox.Text.{Text}
use uwuubox.Errors.{Fault}
use uwuubox.Storage.{StorageError, file_key}
use uwuubox.Objects.{acquire_object, Acquired}
use uwuubox.Objects.References.{Counts, count}
use uwuubox.Objects.Refcounts.{acquire_object-Counts}
use uwuubox.Files.Rows.{FileRow, World, Disk, Erase, Outcome, with_objects, with_disk, find_file}
use uwuubox.Files.References.{
  refs_of, with_thumb, row_refs, Counts-count, count-cons, count-with_thumb,
}
use uwuubox.Upload.Commit.{
  Write, rollback_object, store_picture, rollback_thumb, insert_row, inserted, after_write,
  after_acquire, commit, with_keys,
}
use uwuubox.Upload.Sharing.{
  Holding, rollback_object-Holding, store_thumbnail-Holding, PictureHolding, count-step,
}

-- A row is new and counted, or no row is and the table counts what it counted before.
pub data Committed (w : World) : Outcome FileRow → Type 0 where
  stored :
      (row : FileRow) (w' : World)
      → w'.files ≡ row ∷ w.files
      → Counts w'.objects (refs_of w'.files)
      → Committed w (ok row, w')
  undone :
      (fault : Fault) (w' : World)
      → w'.files ≡ w.files
      → Counts w'.objects (refs_of w'.files)
      → Committed w (err fault, w')

count-thumb_first :
    (k key : Text) (o : Option Text) (refs : List Text)
    → count k (with_thumb o (key ∷ refs)) ≡ count k (key ∷ with_thumb o refs)
count-thumb_first k key o refs =
    let e = count-with_thumb k o (key ∷ refs) in
    let f = count-with_thumb k o refs in
    let g = count-cons k key refs in let h = count-cons k key (with_thumb o refs) in omega arith

count-thumb_step :
    (k : Text) (o : Option Text) (refs : List Text) → count k (with_thumb o refs) ≤ count k refs + 1
count-thumb_step k none refs = omega arith
count-thumb_step k (some key) refs = count-step k key refs

Holding-thumb_first :
    (rows : List FileRow) (key : Text) (o : Option Text) (refs : List Text) (w : World)
    → Holding rows (with_thumb o (key ∷ refs)) w
    → Holding rows (key ∷ with_thumb o refs) w
Holding-thumb_first rows key o refs w h = record {
  files = h.files;
  counted =
      Counts-count w.objects (with_thumb o (key ∷ refs)) (key ∷ with_thumb o refs)
        (λ k. count-thumb_first k key o refs) h.counted;
}

module _ (erase : Erase) (write : Write) (before : World)
    (counts : Counts before.objects (refs_of before.files))
    (small : (k : Text) → count k (refs_of before.files) < 2_147_483_646) where
  abbrev rows : List FileRow
  rows = before.files

  abbrev refs : List Text
  refs = refs_of before.files

  undone_at : (fault : Fault) (w : World) → Holding rows refs w → Committed before (err fault, w)
  undone_at fault w h =
      undone fault w h.files
        (subst (λ files. Counts w.objects (refs_of files)) (sym h.files) h.counted)

  rollback_thumb-Holding :
      (o : Option Text) (w : World)
      → Holding rows (with_thumb o refs) w
      → Holding rows refs (rollback_thumb erase write o w)
  rollback_thumb-Holding none w h = h
  rollback_thumb-Holding (some key) w h =
      let bound = small key in rollback_object-Holding erase write rows refs key w h (omega arith)

  inserted-Committed :
      (draft : FileRow) (key : Text) (o : Option Text) (w : World)
      → Holding rows (key ∷ with_thumb o refs) w
      → (taken : Option FileRow) → Committed before (inserted erase write draft key (o, w) taken)
  unfolding refs_of
  inserted-Committed draft key o w h none =
      stored (with_keys draft key o) _ (ap (λ files. with_keys draft key o ∷ files) h.files) (
        subst (λ files. Counts w.objects (row_refs (with_keys draft key o) (refs_of files)))
          (sym h.files) h.counted)
  inserted-Committed draft key o w h (some taken) =
      let bound = small key in
      let step = count-thumb_step key o refs in
      undone_at _ _ (
        rollback_thumb-Holding o (rollback_object erase write key w)
          (rollback_object-Holding erase write rows (with_thumb o refs) key w h (omega arith)))

  insert_row-Committed :
      (draft : FileRow) (key : Text) (p : Option Text × World)
      → PictureHolding erase write rows (key ∷ refs) p
      → Committed before (insert_row erase write draft key p)
  unfolding insert_row
  insert_row-Committed draft key (o, w) h =
      inserted-Committed draft key o w (Holding-thumb_first rows key o refs w h)
        (find_file draft.id_core w.files)

  pub store_picture-Holding :
      (core key : Text) (picture : Option (Bytes × Bytes)) (w : World)
      → Holding rows (key ∷ refs) w
      → PictureHolding erase write rows (key ∷ refs) (store_picture erase write core picture w)
  unfolding store_picture
  store_picture-Holding core key none w h = h
  store_picture-Holding core key (some (digest, jpeg)) w h =
      store_thumbnail-Holding erase write rows (key ∷ refs) core digest jpeg w h
        (λ k. room (count-step k key refs) (small k))
    where
      room : {a b : ℕ} → a ≤ b + 1 → b < 2_147_483_646 → a < 2_147_483_648
      room p q = omega arith

  after_write-Committed :
      (draft : FileRow) (picture : Option (Bytes × Bytes)) (key : Text) (w : World)
      → Holding rows (key ∷ refs) w
      → (r : Result StorageError Unit × Disk)
      → Committed before (after_write erase write draft picture key w r)
  after_write-Committed draft picture key w h (ok done, disk) = insert_row-Committed draft key _ (
      store_picture-Holding draft.id_core key picture (with_disk w disk)
        (record { files = h.files; counted = h.counted }))
  after_write-Committed draft picture key w h (err e, disk) =
      let bound = small key in
      undone_at _ _ (
        rollback_object-Holding erase write rows refs key (with_disk w disk)
          (record { files = h.files; counted = h.counted }) (omega arith))

  after_acquire-Committed :
      (draft : FileRow) (bytes : Bytes) (picture : Option (Bytes × Bytes)) (o : Acquired)
      → acquire_object before.objects draft.sha256
          (file_key draft.id_core draft.ext)
          (pos (length bytes))
          draft.mime_stored
        ≡ o
      → Committed before (after_acquire erase write draft picture bytes before o)
  after_acquire-Committed draft bytes picture none e =
      undone_at _ before (record { files = refl; counted = counts })
  after_acquire-Committed draft bytes picture (some (key, false, objects)) e =
      insert_row-Committed draft key _ (
        store_picture-Holding draft.id_core key picture (with_objects before objects) (record {
          files = refl;
          counted = acquire_object-Counts before.objects refs _ _ _ _ key false objects counts e;
        }))
  after_acquire-Committed draft bytes picture (some (key, true, objects)) e =
      after_write-Committed draft picture key (with_objects before objects)
        (record {
          files = refl;
          counted = acquire_object-Counts before.objects refs _ _ _ _ key true objects counts e;
        })
        (write key bytes before.disk)

  -- If the table of objects counts exactly the references of the rows of files, each fewer than
  -- 2^31 - 2, then whatever the backend answers to writes and deletes, `commit` ends in one of
  -- two ways: it succeeds and one row is new, or it fails and the rows are what they were; after
  -- either the table counts exactly the references of the rows.
  pub commit-Committed :
      (draft : FileRow) (bytes : Bytes) (picture : Option (Bytes × Bytes))
      → Committed before (commit erase write draft bytes picture before)
  unfolding commit
  commit-Committed draft bytes picture = after_acquire-Committed draft bytes picture _ refl
