-- ===== src/Upload/Sharing.antt =====
-- Proofs about the end of `upload_inner` of src/routes/upload.rs: whatever fails, the table of objects
-- counts what the rows of files refer to.
use uwuubox.Prelude.{
  ◌+◌, ◌<◌, ◌≤◌, ◌≡◌, ◌∙◌, ap, sym, refl, subst, Bool, Bool-cases, inl, inr, if_true, if_false,
  true, false, List, Bytes, ◌∷◌, Option, none, some, Result, ok, err, length, arith, ◌==◌, codes,
}
use uwuubox.Prelude.Int.{pos}
use uwuubox.Text.{Text}
use uwuubox.Storage.{StorageError, is_safe_key}
use uwuubox.Objects.{ObjectRow, acquire_object, Acquired}
use uwuubox.Objects.References.{Counts, count}
use uwuubox.Objects.Refcounts.{acquire_object-Counts, release_object-Counts}
use uwuubox.Files.Rows.{
  FileRow, World, Disk, Erase, Outcome, release, delete_bytes, after_release, erased, with_objects,
  with_disk,
}
use uwuubox.Files.References.{with_thumb}
use uwuubox.Files.Keys.{release-files}
use uwuubox.Upload.Commit.{
  Write, rollback_object, store_thumbnail, stored_thumb, kept_thumb, thumb_candidate,
}

-- The tables in the middle of a request: the rows, and references that no row holds yet.
pub record Holding (rows : List FileRow) (refs : List Text) (w : World) : Type 0 where
  pub files : w.files ≡ rows
  pub counted : Counts w.objects refs

pub count-step : (k r : Text) (refs : List Text) → count k (r ∷ refs) ≤ count k refs + 1
unfolding count
count-step k r refs = ground arith

module _ (erase : Erase) (write : Write) where
  abbrev objects_after : {A : Type 0} → Outcome A → List ObjectRow
  objects_after o = o.1.objects

  delete_bytes-objects : (key : Text) (w : World) → (delete_bytes erase key w).1.objects ≡ w.objects
  unfolding delete_bytes
  delete_bytes-objects key w = elim (Bool-cases (is_safe_key key)) [
    | inl safe ↦ ap objects_after (if_true _ _ safe) ∙ erased-objects (erase key)
    | inr bad ↦ ap objects_after (if_false _ _ bad)
  ]
    where
      erased-objects : (o : Option Text) → (erased erase key w o).1.objects ≡ w.objects
      erased-objects none = refl
      erased-objects (some message) = refl

  after_release-objects :
      (key : Text) (w : World) (last : Bool) (objects : List ObjectRow)
      → (after_release erase key w (some (last, objects))).1.objects ≡ objects
  after_release-objects key w false objects = refl
  after_release-objects key w true objects = delete_bytes-objects key (with_objects w objects)

  pub rollback_object-Holding :
      (rows : List FileRow) (refs : List Text) (key : Text) (w : World)
      → Holding rows (key ∷ refs) w
      → count key refs < 2_147_483_648
      → Holding rows refs (rollback_object erase write key w)
  unfolding rollback_object release
  rollback_object-Holding rows refs key w h small =
      let (objects, e, counted) = release_object-Counts w.objects refs key h.counted small in
      record {
        files = release-files erase key w ∙ h.files;
        counted =
            subst (λ objects. Counts objects refs)
              (sym (
                ap (λ o. (after_release erase key w o).1.objects) e
                ∙ after_release-objects key w (count key refs == 0) objects))
              counted;
      }

  abbrev pub PictureHolding :
      (rows : List FileRow) (refs : List Text) → Option Text × World → Type 0
  PictureHolding rows refs (o, w) = Holding rows (with_thumb o refs) w

  kept_thumb-Holding :
      (rows : List FileRow) (refs : List Text) (key : Text) (w : World)
      → Holding rows (key ∷ refs) w
      → count key refs < 2_147_483_648
      → (r : Result StorageError Unit × Disk)
      → PictureHolding rows refs (kept_thumb erase write key w r)
  kept_thumb-Holding rows refs key w h small (ok done, disk) = record {
    files = h.files;
    counted = h.counted;
  }
  kept_thumb-Holding rows refs key w h small (err e, disk) =
      rollback_object-Holding rows refs key (with_disk w disk)
        (record { files = h.files; counted = h.counted }) small

  pub store_thumbnail-Holding :
      (rows : List FileRow) (refs : List Text) (core : Text) (digest jpeg : Bytes) (w : World)
      → Holding rows refs w
      → ((k : Text) → count k refs < 2_147_483_648)
      → PictureHolding rows refs (store_thumbnail erase write core digest jpeg w)
  unfolding store_thumbnail
  store_thumbnail-Holding rows refs core digest jpeg w h small =
      by_case
        (acquire_object w.objects digest (thumb_candidate erase write core) (pos (length jpeg))
          (codes "image/jpeg"))
        refl
    where
      by_case :
          (o : Acquired)
          → acquire_object w.objects digest
              (thumb_candidate erase write core)
              (pos (length jpeg))
              (codes "image/jpeg")
            ≡ o
          → PictureHolding rows refs (stored_thumb erase write jpeg w o)
      by_case none e = h
      by_case (some (key, false, objects)) e = record {
        files = h.files;
        counted = acquire_object-Counts w.objects refs digest _ _ _ key false objects h.counted e;
      }
      by_case (some (key, true, objects)) e =
          kept_thumb-Holding rows refs key (with_objects w objects)
            (record {
              files = h.files;
              counted =
                  acquire_object-Counts w.objects refs digest _ _ _ key true objects h.counted e;
            })
            (small key) (write key jpeg w.disk)
