-- ===== src/Files/Rows.antt =====
-- src/db.rs, the table `files`, and `remove_file` of src/routes/files.rs with the calls it makes.
use uwuubox.Prelude.{
  ℕ, Option, Bool, List, Bytes, Result, ok, err, [], ◌∷◌, none, some, bytes_eq, if◌then◌else◌,
  codes, ltb,
}
use uwuubox.Prelude.Int.{ℤ}
use uwuubox.Text.{Text}
use uwuubox.Errors.{Fault, failed, aborted, from_sqlx, internal}
use uwuubox.Storage.{is_safe_key}
use uwuubox.Objects.{ObjectRow, release_object}

pub record FileRow : Type 0 where
  pub id_core : Text
  pub ext : Text
  pub owner_id : Option Text
  pub original_name : Text
  pub size_bytes : ℤ
  pub mime_stored : Text
  pub sha256 : Bytes
  pub storage_key : Text
  pub visibility : Text
  pub burn_after_read : Bool
  pub access_password_hash : Option Text
  pub scan_status : Text
  pub expires_at : Option ℕ
  pub thumb_key : Option Text
  pub delete_token_hash : Option Text
  pub created_at : ℕ

-- The bytes that the store keeps, under their keys.
abbrev pub Disk : Type 0
Disk = List (Text × Bytes)

-- The two tables and the bytes.
pub record World : Type 0 where
  pub files : List FileRow
  pub objects : List ObjectRow
  pub disk : Disk

-- An answer, or a fault, and what it leaves behind.
abbrev pub Outcome : Type 0 → Type 0
Outcome A = Result Fault A × World

abbrev pub with_files : World → List FileRow → World
with_files w files = record { files = files; objects = w.objects; disk = w.disk }

abbrev pub with_objects : World → List ObjectRow → World
with_objects w objects = record { files = w.files; objects = objects; disk = w.disk }

abbrev pub with_disk : World → Disk → World
with_disk w disk = record { files = w.files; objects = w.objects; disk = disk }

-- `id_core` is the primary key.
unfoldable pub find_file : Text → List FileRow → Option FileRow
find_file core [] = none
find_file core (row ∷ rows) =
    let rest = find_file core rows in if bytes_eq row.id_core core then some row else rest

-- `DELETE FROM files WHERE id_core = …`, the row that it returns and the rows that stay.
unfoldable pub delete_row : Text → List FileRow → Option FileRow × List FileRow
delete_row core [] = (none, [])
delete_row core (row ∷ rows) =
    let (found, rest) = delete_row core rows in
    if bytes_eq row.id_core core then (some row, rows) else (found, row ∷ rest)

-- `is_expired`, at a time that it is given.
unfoldable pub is_expired : ℕ → Option ℕ → Bool
is_expired now none = Bool.false
is_expired now (some at) = ltb at now

unfoldable pub disk_get : Text → Disk → Option Bytes
disk_get key [] = none
disk_get key ((k, b) ∷ disk) =
    let rest = disk_get key disk in if bytes_eq k key then some b else rest

-- What the backend does to the bytes.
unfoldable pub disk_delete : Text → Disk → Disk
disk_delete key [] = []
disk_delete key ((k, b) ∷ disk) =
    let rest = disk_delete key disk in if bytes_eq k key then rest else (k, b) ∷ rest

-- The answer of the backend to a request to delete: done, or an error's text. A file or object that
-- is not there is as good as deleted.
abbrev pub Erase : Type 0
Erase = Text → Option Text

-- `release_object` has an error where the check of `refcount` refuses the update.
abbrev pub refused_update : Fault
refused_update = failed (from_sqlx (codes "refcount"))

module _ (erase : Erase) where
  abbrev pub erased : Text → World → Option Text → Outcome Unit
  erased key w none = (ok tt, with_disk w (disk_delete key w.disk))
  erased key w (some message) = (err (failed (internal message)), w)

  -- `Store::delete` of either backend
  unfoldable pub delete_bytes : Text → World → Outcome Unit
  unfolding is_safe_key
  delete_bytes key w = if is_safe_key key then erased key w (erase key) else (err aborted, w)

  abbrev pub after_release : Text → World → Option (Bool × List ObjectRow) → Outcome Unit
  after_release key w none = (err refused_update, w)
  after_release key w (some (Bool.false, objects)) = (ok tt, with_objects w objects)
  after_release key w (some (Bool.true, objects)) = delete_bytes key (with_objects w objects)

  -- `if db::release_object(…).await? { store().delete(…).await?; }`
  unfoldable pub release : Text → World → Outcome Unit
  unfolding release_object delete_bytes
  release key w = after_release key w (release_object w.objects key)

  abbrev pub release_thumb : Option Text → World → Outcome Unit
  release_thumb none w = (ok tt, w)
  release_thumb (some key) w = release key w

  abbrev pub removed_true : Outcome Unit → Outcome Bool
  removed_true (ok done, w) = (ok Bool.true, w)
  removed_true (err fault, w) = (err fault, w)

  abbrev pub then_thumb : Option Text → Outcome Unit → Outcome Bool
  then_thumb thumb_key (err fault, w) = (err fault, w)
  then_thumb thumb_key (ok done, w) = removed_true (release_thumb thumb_key w)

  abbrev pub removed : World → Option FileRow × List FileRow → Outcome Bool
  removed w (none, rows) = (ok Bool.false, w)
  removed w (some row, rows) =
      then_thumb row.thumb_key (release row.storage_key (with_files w rows))

  -- `remove_file` of the row with this core
  unfoldable pub remove_file : Text → World → Outcome Bool
  unfolding delete_row release
  remove_file core w = removed w (delete_row core w.files)
