-- ===== src/Objects.antt =====
-- src/db.rs, the table `objects` that stored bytes are shared through, and the callers that take and
-- give back a reference: `rollback_object` of src/routes/upload.rs, `remove_file` of
-- src/routes/files.rs.
pub mod References
pub mod Updates
pub mod Counting
pub mod Refcounts
pub mod Dedupe
pub mod Totality
pub mod Acquiring
mod Examples
use uwuubox.Prelude.{
  ℕ, Option, List, Bytes, none, ◌∷◌, some, Bool, false, if◌then◌else◌, true, bytes_eq, [], ltb, any,
  ◌||◌,
}
use uwuubox.Prelude.Int.{ℤ, pos, negsuc, ltb_ℤ, ◌+ℤ◌, ◌-ℤ◌}
use uwuubox.Text.{Text}

pub record ObjectRow : Type 0 where
  pub sha256 : Bytes
  pub storage_key : Text
  pub size_bytes : ℤ
  pub mime_stored : Text
  pub refcount : ℤ

-- The tests of UNIQUE and PRIMARY KEY.
abbrev pub has_sha : Bytes → List ObjectRow → Bool
has_sha sha256 [] = false
has_sha sha256 (row ∷ rows) = bytes_eq row.sha256 sha256 || has_sha sha256 rows

abbrev pub has_key : Text → List ObjectRow → Bool
has_key key [] = false
has_key key (row ∷ rows) = bytes_eq row.storage_key key || has_key key rows

pub data Insertion : Type 0 where
  inserted : List ObjectRow → Insertion
  conflict : Insertion
  violation : Insertion

-- `INSERT … ON CONFLICT (sha256) DO NOTHING RETURNING storage_key`; `storage_key` is UNIQUE.
unfoldable pub insert_object : List ObjectRow → ObjectRow → Insertion
insert_object rows row =
    if has_sha row.sha256 rows
    then conflict
    else if has_key row.storage_key rows
    then violation
    else inserted (row ∷ rows)

abbrev pub with_refcount : ObjectRow → ℤ → ObjectRow
with_refcount row n = record {
  sha256 = row.sha256;
  storage_key = row.storage_key;
  size_bytes = row.size_bytes;
  mime_stored = row.mime_stored;
  refcount = n;
}

-- `refcount INTEGER CHECK (refcount >= 0)`: any other number is an error of the statement.
abbrev pub refcount_in : ℤ → Option ℤ
refcount_in (negsuc n) = none
refcount_in (pos n) = if ltb n 2_147_483_648 then some (pos n) else none

abbrev pub counted_row : ObjectRow → List ObjectRow → Option ℤ → Option (Text × List ObjectRow)
counted_row row rows none = none
counted_row row rows (some n) = some (row.storage_key, with_refcount row n ∷ rows)

abbrev pub keep_row : ObjectRow → Option (Text × List ObjectRow) → Option (Text × List ObjectRow)
keep_row row none = none
keep_row row (some (key, rows)) = some (key, row ∷ rows)

-- `UPDATE objects SET refcount = refcount + 1 WHERE sha256 = … RETURNING storage_key`. Nothing where
-- `fetch_one` has an error: no such row, or a number too large.
unfoldable pub count_up : List ObjectRow → Bytes → Option (Text × List ObjectRow)
unfolding ◌+ℤ◌
count_up [] sha256 = none
count_up (row ∷ rows) sha256 =
    let rest = count_up rows sha256 in
    if bytes_eq row.sha256 sha256
    then counted_row row rows (refcount_in (row.refcount +ℤ pos 1))
    else keep_row row rest

abbrev pub Acquired : Type 0
Acquired = Option (Text × Bool × List ObjectRow)

abbrev pub shared : Option (Text × List ObjectRow) → Acquired
shared none = none
shared (some (key, rows)) = some (key, false, rows)

abbrev pub after_insert : List ObjectRow → Bytes → Text → Insertion → Acquired
after_insert rows sha256 key (inserted new_rows) = some (key, true, new_rows)
after_insert rows sha256 key conflict = shared (count_up rows sha256)
after_insert rows sha256 key violation = none

-- The row that the INSERT adds: `refcount` has the default 1.
abbrev pub fresh_row : Bytes → Text → ℤ → Text → ObjectRow
fresh_row sha256 candidate_key size_bytes mime_stored = record {
  sha256 = sha256;
  storage_key = candidate_key;
  size_bytes = size_bytes;
  mime_stored = mime_stored;
  refcount = pos 1;
}

-- The key, whether it is new, and the table; nothing on an error of the database.
unfoldable pub acquire_object : List ObjectRow → Bytes → Text → ℤ → Text → Acquired
unfolding insert_object
acquire_object rows sha256 candidate_key size_bytes mime_stored =
    after_insert rows sha256 candidate_key
      (insert_object rows (fresh_row sha256 candidate_key size_bytes mime_stored))

abbrev pub Counted : Type 0
Counted = Option (Option ℤ × List ObjectRow)

abbrev pub lowered_row : ObjectRow → List ObjectRow → Option ℤ → Counted
lowered_row row rows none = none
lowered_row row rows (some n) = some (some n, with_refcount row n ∷ rows)

abbrev pub keep_count : ObjectRow → Counted → Counted
keep_count row none = none
keep_count row (some (left, rows)) = some (left, row ∷ rows)

-- `UPDATE objects SET refcount = refcount - 1 WHERE storage_key = … RETURNING refcount`
unfoldable pub count_down : List ObjectRow → Text → Counted
unfolding ◌-ℤ◌
count_down [] key = some (none, [])
count_down (row ∷ rows) key =
    let rest = count_down rows key in
    if bytes_eq row.storage_key key
    then lowered_row row rows (refcount_in (row.refcount -ℤ pos 1))
    else keep_count row rest

-- `DELETE FROM objects WHERE storage_key = …`
unfoldable pub delete_object : List ObjectRow → Text → List ObjectRow
delete_object [] key = []
delete_object (row ∷ rows) key =
    let rest = delete_object rows key in if bytes_eq row.storage_key key then rest else row ∷ rest

abbrev pub released : Text → Counted → Option (Bool × List ObjectRow)
released key none = none
released key (some (none, rows)) = some (false, rows)
released key (some (some left, rows)) =
    if ltb_ℤ (pos 0) left then some (false, rows) else some (true, delete_object rows key)

-- Whether the caller must now delete the bytes, and the table; nothing on an error of the database.
unfoldable pub release_object : List ObjectRow → Text → Option (Bool × List ObjectRow)
release_object rows key = released key (count_down rows key)
