-- ===== src/Upload/Examples.antt =====
-- The theorems on uploads at small files, and tests of the fields.
use uwuubox.Prelude.{some, ok, true, ◌≡◌, codes, err, false, refl, ◌∷◌, []}
use uwuubox.Prelude.Int.{pos}
use uwuubox.Errors.{too_large}
use uwuubox.Prelude.{Bytes, none, ◌<◌, arith}
use uwuubox.Text.{Text}
use uwuubox.Objects.References.{count}
use uwuubox.Files.Rows.{FileRow, World, find_file, Disk, disk_get}
use uwuubox.Files.References.{refs_of}
use uwuubox.Files.Fixtures.{file_row, world, erase, world-Counts, empty-Counts}
use uwuubox.Upload.Commit.{Write, commit}
use uwuubox.Upload.Undoing.{Committed, commit-Committed}
use uwuubox.Upload.Storing.{Stores, IsWritten, commit-Stores}
use uwuubox.Upload.Cores.{AreAnswered, claims, claims-AreAnswered}
use uwuubox.Upload.{spool_file_field, parse_bool_field, quota_remaining}
use uwuubox.Upload.Caps.{ended, chunk, spool_file_field-exact}

test_yes : parse_bool_field (some (codes " yes ")) false (codes "strip_exif") ≡ ok true
unfolding parse_bool_field
test_yes = refl

test_full : quota_remaining true (some (pos 10)) (pos 10) ≡ err (too_large (pos 0))
unfolding quota_remaining
test_full = refl

spool_file_field-exact_example :
    spool_file_field (ok (1 ∷ 2 ∷ []) ∷ ok (3 ∷ []) ∷ []) (pos 2) ≡ err (too_large (pos 2))
spool_file_field-exact_example =
    spool_file_field-exact (ok (1 ∷ 2 ∷ []) ∷ ok (3 ∷ []) ∷ []) (pos 2) (1 ∷ 2 ∷ 3 ∷ [])
      (chunk (1 ∷ 2 ∷ []) (chunk (3 ∷ []) ended))

abbrev draft : FileRow
draft = file_row false none

abbrev write : Write
write key bytes disk = (ok tt, (key, bytes) ∷ disk)

few : (k : Text) → count k (refs_of (draft ∷ [])) < 2_147_483_646
unfolding refs_of count
few k = ground arith

-- The core is taken, so the reference to the shared object is given back.
commit-Committed_example :
    Committed (world false none) (commit erase write draft (1 ∷ 2 ∷ []) none (world false none))
commit-Committed_example =
    commit-Committed erase write (world false none) (world-Counts false none) few draft (1 ∷ 2 ∷ [])
      none

claims-AreAnswered_example :
    AreAnswered
      (codes "a" ∷ [])
      ((codes "a" ∷ codes "b" ∷ []) ∷ (codes "b" ∷ []) ∷ [])
      (claims ((codes "a" ∷ codes "b" ∷ []) ∷ (codes "b" ∷ []) ∷ []) (codes "a" ∷ [])).0
claims-AreAnswered_example =
    claims-AreAnswered ((codes "a" ∷ codes "b" ∷ []) ∷ (codes "b" ∷ []) ∷ []) (codes "a" ∷ [])

abbrev empty : World
empty = record { files = []; objects = []; disk = [] }

few_refs_empty : (k : Text) → count k [] < 2_147_483_646
unfolding count
few_refs_empty k = omega arith

writes : (key : Text) (bytes : Bytes) (disk : Disk) → IsWritten write key bytes disk
unfolding disk_get
writes key bytes disk = record { disk' = (key, bytes) ∷ disk; done = refl; others = λ k. refl }

-- A file with a picture, which is stored beside it.
commit-Stores_example :
    Stores draft
      (1 ∷ 2 ∷ [])
      empty
      (commit erase write draft (1 ∷ 2 ∷ []) (some (5 ∷ [], 6 ∷ [])) empty)
unfolding refs_of find_file
commit-Stores_example =
    commit-Stores erase write writes empty empty-Counts few_refs_empty draft refl (1 ∷ 2 ∷ [])
      (some (5 ∷ [], 6 ∷ [])) (omega arith) refl
