-- ===== src/Gc.antt =====
-- src/routes/gc.rs: the report on stored bytes and rows that do not fit together, and the reclaiming of
-- what nothing refers to. The two listings are read off the bytes on disk; a map ordered by its keys is
-- a sorted list.
pub mod Safety
pub mod Thumbnails
mod Examples
use uwuubox.Prelude.{
  ℕ, zero, suc, ◌+◌, ◌-◌, ◌^◌, Option, Bool, List, Bytes, Result, ok, err, [], ◌∷◌, ◌++◌, none,
  some, bytes_eq, if◌then◌else◌, codes, ltb, leb, map, any, length, min, not, ◌&&◌, ◌||◌, ◌==◌,
}
use uwuubox.Prelude.Int.{ℤ, pos, negsuc, ltb_ℤ}
use uwuubox.Text.{Text, starts_with}
use uwuubox.Errors.{Fault}
use uwuubox.Objects.{ObjectRow}
use uwuubox.Objects.References.{refcount_of}
use uwuubox.Files.Rows.{FileRow, World, Disk, Erase, Outcome, delete_bytes, with_objects}

pub data Reason : Type 0 where
  zero_ref : Reason
  missing_bytes : Reason
  unreferenced : Reason

pub record Orphan : Type 0 where
  pub key : Text
  pub bytes : ℕ
  pub reason : Reason

pub record GcReport : Type 0 where
  pub checked_keys : ℕ
  pub orphans : List Orphan
  pub reclaimed_bytes : ℕ

abbrev pub Inventory : Type 0
Inventory = List (Text × ℕ)

abbrev pub is_listed : Text → Bool
is_listed key = starts_with (codes "files/") key || starts_with (codes "avatars/") key

-- `inventory`: the keys below the two prefixes, with their sizes.
unfoldable pub inventory : Disk → Inventory
unfolding starts_with
inventory [] = []
inventory ((key, b) ∷ disk) =
    let rest = inventory disk in if is_listed key then (key, length b) ∷ rest else rest

unfoldable pub stored_bytes : Text → Inventory → Option ℕ
stored_bytes key [] = none
stored_bytes key ((k, n) ∷ rest) =
    let found = stored_bytes key rest in if bytes_eq k key then some n else found

abbrev pub has_text : Text → List Text → Bool
has_text key keys = any (bytes_eq key) keys

unfoldable pub find_object : Text → List ObjectRow → Option ObjectRow
find_object key [] = none
find_object key (row ∷ rows) =
    let found = find_object key rows in if bytes_eq row.storage_key key then some row else found

-- `max(0) as u64`
abbrev pub as_size : ℤ → ℕ
as_size (pos n) = n
as_size (negsuc n) = 0

abbrev pub unwrap_or : Option ℕ → ℕ → ℕ
unwrap_or none d = d
unwrap_or (some n) d = n

abbrev pub object_finding : ObjectRow → Option ℕ → Option (Reason × ℕ)
object_finding row found =
    if ltb_ℤ (pos 0) row.refcount
    then elim found [ some n ↦ none | none ↦ some (missing_bytes, as_size row.size_bytes) ]
    else some (zero_ref, unwrap_or found (as_size row.size_bytes))

abbrev pub file_finding : Bool → Option ℕ → Option (Reason × ℕ)
file_finding linked (some n) = some (unreferenced, n)
file_finding linked none = if linked then some (missing_bytes, 0) else none

abbrev pub avatar_finding : Bool → Option ℕ → Option (Reason × ℕ)
avatar_finding Bool.false (some n) = some (unreferenced, n)
avatar_finding Bool.true none = some (missing_bytes, 0)
avatar_finding Bool.false none = none
avatar_finding Bool.true (some n) = none

module _ (file_keys avatar_keys : List Text) where
  abbrev pub without_object : Text → Option ℕ → Option (Reason × ℕ)
  without_object key found =
      if starts_with (codes "files/") key
      then file_finding (has_text key file_keys) found
      else if starts_with (codes "avatars/") key
      then avatar_finding (has_text key avatar_keys) found
      else none

  -- What is wrong with a key, if anything.
  unfoldable pub finding : Text → Option ObjectRow → Option ℕ → Option (Reason × ℕ)
  unfolding starts_with
  finding key none found = without_object key found
  finding key (some row) found = object_finding row found

-- The order of texts, by their characters.
unfoldable pub ltb_text : Text → Text → Bool
ltb_text s [] = Bool.false
ltb_text [] (d ∷ t) = Bool.true
ltb_text (c ∷ s) (d ∷ t) = ltb c d || ((c == d) && ltb_text s t)

-- `BTreeSet::insert`
unfoldable pub insert_key : Text → List Text → List Text
unfolding ltb_text
insert_key key [] = key ∷ []
insert_key key (k ∷ keys) =
    let rest = insert_key key keys in
    if bytes_eq key k then k ∷ keys else if ltb_text key k then key ∷ k ∷ keys else k ∷ rest

unfoldable pub key_set : List Text → List Text
unfolding insert_key
key_set [] = []
key_set (key ∷ keys) = insert_key key (key_set keys)

abbrev pub orphan_of : Text → Option (Reason × ℕ) → List Orphan → List Orphan
orphan_of key none rest = rest
orphan_of key (some (reason, n)) rest = record { key = key; bytes = n; reason = reason } ∷ rest

-- `saturating_add` of `u64`
abbrev pub add_u64 : ℕ → ℕ → ℕ
add_u64 a b = min (a + b) (2 ^ 64 - 1)

abbrev pub is_missing : Reason → Bool
is_missing missing_bytes = Bool.true
is_missing zero_ref = Bool.false
is_missing unreferenced = Bool.false

module _ (file_keys avatar_keys : List Text) (objects : List ObjectRow) (inv : Inventory) where
  unfoldable pub find_orphans : List Text → List Orphan
  unfolding finding find_object stored_bytes
  find_orphans [] = []
  find_orphans (key ∷ keys) =
      orphan_of key
        (finding file_keys avatar_keys key (find_object key objects) (stored_bytes key inv))
        (find_orphans keys)

  abbrev pub counts_for : Orphan → ℕ
  counts_for orphan =
      if not (is_missing orphan.reason)
        && not (has_text orphan.key file_keys)
        && not (has_text orphan.key avatar_keys)
      then unwrap_or (stored_bytes orphan.key inv) 0
      else 0

  -- The bytes that reclaiming would free.
  unfoldable pub reclaimable : ℕ → List Orphan → ℕ
  reclaimable n [] = n
  reclaimable n (orphan ∷ orphans) = reclaimable (add_u64 n (counts_for orphan)) orphans

abbrev pub storage_key_of : FileRow → Text
storage_key_of row = row.storage_key

abbrev pub object_key_of : ObjectRow → Text
object_key_of row = row.storage_key

abbrev pub inventory_key : Text × ℕ → Text
inventory_key entry = entry.0

-- `inspect`, over the avatars that users have.
unfoldable pub inspect : World → List Text → GcReport × Inventory
unfolding inventory find_orphans reclaimable key_set
inspect w avatar_keys =
    let inv = inventory w.disk in
    let file_keys = map storage_key_of w.files in
    let checked =
      key_set
        (map inventory_key inv ++ (map object_key_of w.objects ++ (avatar_keys ++ file_keys))) in
    let orphans = find_orphans file_keys avatar_keys w.objects inv checked in
    (
      record {
        checked_keys = length checked;
        orphans = orphans;
        reclaimed_bytes = reclaimable file_keys avatar_keys w.objects inv 0 orphans;
      },
      inv,
    )

abbrev pub is_held : Option ℤ → Bool
is_held none = Bool.false
is_held (some n) = ltb_ℤ (pos 0) n

-- Whether a row of `files` or of `users` names the key.
abbrev pub is_referenced : World → List Text → Text → Bool
is_referenced w avatar_keys key =
    any (λ row. bytes_eq row.storage_key key) w.files || any (λ k. bytes_eq k key) avatar_keys

-- `DELETE FROM objects WHERE storage_key = … AND refcount <= 0`
unfoldable pub delete_unheld : Text → List ObjectRow → List ObjectRow
delete_unheld key [] = []
delete_unheld key (row ∷ rows) =
    let rest = delete_unheld key rows in
    if bytes_eq row.storage_key key && not (ltb_ℤ (pos 0) row.refcount) then rest else row ∷ rest

abbrev pub resume : Outcome ℕ → (ℕ → World → Outcome ℕ) → Outcome ℕ
resume (err fault, w) next = (err fault, w)
resume (ok freed, w) next = next freed w

module _ (erase : Erase) (avatar_keys : List Text) (inv : Inventory) where
  abbrev pub drop_row : Text → Option ℤ → World → World
  drop_row key none w = w
  drop_row key (some n) w = with_objects w (delete_unheld key w.objects)

  abbrev pub dropped : Text → Option ℤ → ℕ → Outcome Unit → Outcome ℕ
  dropped key refcount n (err fault, w) = (err fault, w)
  dropped key refcount n (ok done, w) = (ok n, drop_row key refcount w)

  abbrev pub erase_stored : Text → Option ℤ → World → Option ℕ → Outcome ℕ
  erase_stored key refcount w none = dropped key refcount 0 (ok tt, w)
  erase_stored key refcount w (some n) = dropped key refcount n (delete_bytes erase key w)

  -- One orphan, in its transaction: the bytes that were freed.
  unfoldable pub reclaim_one : Text → World → Outcome ℕ
  unfolding refcount_of delete_bytes stored_bytes delete_unheld
  reclaim_one key w =
      if is_referenced w avatar_keys key || is_held (refcount_of key w.objects)
      then (ok 0, w)
      else erase_stored key (refcount_of key w.objects) w (stored_bytes key inv)

  -- `reclaim`: an error ends it, and what was done stays done.
  unfoldable pub reclaim : List Orphan → ℕ → World → Outcome ℕ
  unfolding reclaim_one
  reclaim [] n w = (ok n, w)
  reclaim (orphan ∷ orphans) n w =
      if is_missing orphan.reason
      then reclaim orphans n w
      else resume (reclaim_one orphan.key w) (λ freed v. reclaim orphans (add_u64 n freed) v)

abbrev pub run_report : GcReport → Outcome ℕ → Result Fault GcReport × World
run_report report (err fault, w) = (err fault, w)
run_report report (ok n, w) = (
  ok (record { checked_keys = report.checked_keys; orphans = report.orphans; reclaimed_bytes = n }),
  w,
)

-- `run`, for an administrator: the report, after reclaiming unless it is a dry run.
unfoldable pub run : Erase → List Text → Bool → World → Result Fault GcReport × World
unfolding inspect reclaim
run erase avatar_keys dry_run w =
    let (report, inv) = inspect w avatar_keys in
    if dry_run
    then (ok report, w)
    else run_report report (reclaim erase avatar_keys inv report.orphans 0 w)
