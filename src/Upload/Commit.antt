-- ===== src/Upload/Commit.antt =====
-- src/routes/upload.rs, `upload_inner` from the digest on: the core, the shared object, the bytes, the
-- thumbnail and the row; with `try_claim_core` of src/db.rs and `store_thumbnail` of
-- src/routes/files.rs. What the backend does to a write is the parameter `write`.
use uwuubox.Prelude.{
  Option, Bool, List, Bytes, Result, ok, err, [], ◌∷◌, ◌++◌, none, some, bytes_eq, if◌then◌else◌,
  codes, any, length, take,
}
use uwuubox.Prelude.Int.{pos}
use uwuubox.Text.{Text}
use uwuubox.Errors.{Fault, failed, from_storage, from_sqlx}
use uwuubox.Storage.{StorageError, file_key}
use uwuubox.Objects.{acquire_object, Acquired}
use uwuubox.Files.Rows.{
  FileRow, World, Disk, Erase, Outcome, release, with_objects, with_files, with_disk, find_file,
}

-- `try_claim_core`: the cores that were ever taken, and whether this call took one.
unfoldable pub try_claim_core : List Text → Text → Bool × List Text
try_claim_core used core =
    if any (bytes_eq core) used then (Bool.false, used) else (Bool.true, core ∷ used)

-- The first of the candidates that a call takes.
unfoldable pub claim_first : List Text → List Text → Option Text × List Text
unfolding try_claim_core
claim_first [] used = (none, used)
claim_first (candidate ∷ candidates) used =
    let (won, after) = try_claim_core used candidate in
    let rest = claim_first candidates after in if won then (some candidate, after) else rest

-- The five tries of the handler, over the candidates that the generator makes.
unfoldable pub claim_core : List Text → List Text → Option Text × List Text
unfolding claim_first
claim_core candidates used = claim_first (take 5 candidates) used

-- The answer of a backend to a write, and the bytes it leaves.
abbrev pub Write : Type 0
Write = Text → Bytes → Disk → Result StorageError Unit × Disk

abbrev pub write_failed : Fault
write_failed = failed (from_sqlx (codes "objects"))

abbrev pub with_keys : FileRow → Text → Option Text → FileRow
with_keys draft storage_key thumb_key = record {
  id_core = draft.id_core;
  ext = draft.ext;
  owner_id = draft.owner_id;
  original_name = draft.original_name;
  size_bytes = draft.size_bytes;
  mime_stored = draft.mime_stored;
  sha256 = draft.sha256;
  storage_key = storage_key;
  visibility = draft.visibility;
  burn_after_read = draft.burn_after_read;
  access_password_hash = draft.access_password_hash;
  scan_status = draft.scan_status;
  expires_at = draft.expires_at;
  thumb_key = thumb_key;
  delete_token_hash = draft.delete_token_hash;
  created_at = draft.created_at;
}

module _ (erase : Erase) (write : Write) where
  -- `rollback_object` and `rollback_thumbnail`: what fails is logged. A key that `assert_safe_key`
  -- panics on is a failure here.
  unfoldable pub rollback_object : Text → World → World
  unfolding release
  rollback_object key w = (release erase key w).1

  abbrev pub kept_thumb : Text → World → Result StorageError Unit × Disk → Option Text × World
  kept_thumb key w (ok done, disk) = (some key, with_disk w disk)
  kept_thumb key w (err e, disk) = (none, rollback_object key (with_disk w disk))

  abbrev pub stored_thumb : Bytes → World → Acquired → Option Text × World
  stored_thumb jpeg w none = (none, w)
  stored_thumb jpeg w (some (key, Bool.false, objects)) = (some key, with_objects w objects)
  stored_thumb jpeg w (some (key, Bool.true, objects)) =
      kept_thumb key (with_objects w objects) (write key jpeg w.disk)

  abbrev pub thumb_candidate : Text → Text
  thumb_candidate core = codes "thumbs/" ++ core ++ codes ".jpg"

  -- `store_thumbnail`, with the digest of the picture.
  unfoldable pub store_thumbnail : Text → Bytes → Bytes → World → Option Text × World
  unfolding acquire_object rollback_object
  store_thumbnail core digest jpeg w = stored_thumb jpeg w (
      acquire_object w.objects digest (thumb_candidate core) (pos (length jpeg))
        (codes "image/jpeg"))

  -- The picture of a video, with its digest, if one was made.
  unfoldable pub store_picture : Text → Option (Bytes × Bytes) → World → Option Text × World
  unfolding store_thumbnail
  store_picture core none w = (none, w)
  store_picture core (some (digest, jpeg)) w = store_thumbnail core digest jpeg w

  abbrev pub rollback_thumb : Option Text → World → World
  rollback_thumb none w = w
  rollback_thumb (some key) w = rollback_object key w

  -- What the row of this draft and these keys becomes.
  abbrev pub inserted : FileRow → Text → Option Text × World → Option FileRow → Outcome FileRow
  inserted draft key (thumb_key, w) none =
      (ok (with_keys draft key thumb_key), with_files w (with_keys draft key thumb_key ∷ w.files))
  inserted draft key (thumb_key, w) (some taken) =
      (err write_failed, rollback_thumb thumb_key (rollback_object key w))

  -- The row goes in, unless its core is there.
  unfoldable pub insert_row : FileRow → Text → Option Text × World → Outcome FileRow
  unfolding find_file rollback_object
  insert_row draft key (thumb_key, w) =
      inserted draft key (thumb_key, w) (find_file draft.id_core w.files)

  abbrev pub after_write :
      FileRow
      → Option (Bytes × Bytes)
      → Text
      → World
      → Result StorageError Unit × Disk
      → Outcome FileRow
  after_write draft picture key w (ok done, disk) =
      insert_row draft key (store_picture draft.id_core picture (with_disk w disk))
  after_write draft picture key w (err e, disk) =
      (err (from_storage e), rollback_object key (with_disk w disk))

  abbrev pub after_acquire :
      FileRow → Option (Bytes × Bytes) → Bytes → World → Acquired → Outcome FileRow
  after_acquire draft picture bytes w none = (err write_failed, w)
  after_acquire draft picture bytes w (some (key, Bool.false, objects)) =
      insert_row draft key (store_picture draft.id_core picture (with_objects w objects))
  after_acquire draft picture bytes w (some (key, Bool.true, objects)) =
      after_write draft picture key (with_objects w objects) (write key bytes w.disk)

  -- The end of the handler, for a row that lacks only its two keys.
  unfoldable pub commit : FileRow → Bytes → Option (Bytes × Bytes) → World → Outcome FileRow
  unfolding acquire_object file_key store_picture insert_row rollback_object
  commit draft bytes picture w = after_acquire draft picture bytes w (
      acquire_object w.objects draft.sha256 (file_key draft.id_core draft.ext) (pos (length bytes))
        draft.mime_stored)
