-- ===== src/Objects/Examples.antt =====
-- The theorems on the table of objects, at one shared object.
use uwuubox.Prelude.{codes, refl, ◌∷◌, ◌≡◌, ◌==◌, arith}
use uwuubox.Prelude.Int.{pos}
use uwuubox.Text.{Text}
use uwuubox.Objects.Totality.{acquire_object-succeeds}
use uwuubox.Objects.{
  ObjectRow, fresh_row, with_refcount, acquire_object, release_object, List, [], false, true, some,
  Bool,
}
use uwuubox.Objects.References.{Counts, count, refcount_of, IsUnique}
use uwuubox.Objects.Refcounts.{acquire_object-Counts, release_object-Counts}
use uwuubox.Objects.Dedupe.{acquire_object-shared_then_released}

abbrev key : Text
key = codes "files/abcdefgh.bin"

abbrev other_key : Text
other_key = codes "files/hgfedcba.bin"

abbrev row : ObjectRow
row = fresh_row (1 ∷ 2 ∷ []) key (pos 5) (codes "text/plain")

empty-Counts : Counts [] []
unfolding Counts IsUnique refcount_of count
empty-Counts = (tt, λ k. refl)

one-Counts : Counts (row ∷ []) (key ∷ [])
unfolding acquire_object
one-Counts =
    acquire_object-Counts [] [] (1 ∷ 2 ∷ []) key (pos 5) (codes "text/plain") key true (row ∷ [])
      empty-Counts refl

acquire_object-succeeds_example :
    (key' : Text) × (is_new : Bool) × (rows' : List ObjectRow) × (acquire_object
        (row ∷ [])
        (1 ∷ 2 ∷ [])
        other_key
        (pos 5)
        (codes "text/plain")
      ≡ some (key', is_new, rows'))
    × Counts rows' (key' ∷ key ∷ [])
acquire_object-succeeds_example =
    acquire_object-succeeds (row ∷ []) (key ∷ []) (1 ∷ 2 ∷ []) other_key (pos 5)
      (codes "text/plain") one-Counts (omega arith) refl

release_object-Counts_example :
    (rows' : List ObjectRow) × (release_object (row ∷ []) key ≡ some (count key [] == 0, rows'))
    × Counts rows' []
unfolding count
release_object-Counts_example = release_object-Counts (row ∷ []) [] key one-Counts (omega arith)

acquire_object-shared_then_released_example :
    (acquire_object [] (1 ∷ 2 ∷ []) key (pos 5) (codes "text/plain") ≡ some (key, true, row ∷ []))
    × (acquire_object (row ∷ []) (1 ∷ 2 ∷ []) other_key (pos 5) (codes "text/plain")
        ≡ some (key, false, with_refcount row (pos 2) ∷ []))
    × (release_object (with_refcount row (pos 2) ∷ []) key ≡ some (false, row ∷ []))
acquire_object-shared_then_released_example =
    acquire_object-shared_then_released [] (1 ∷ 2 ∷ []) key other_key (pos 5) (codes "text/plain")
      refl refl
