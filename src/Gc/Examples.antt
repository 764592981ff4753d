-- ===== src/Gc/Examples.antt =====
-- The theorems on the collector, at a stale report and at a thumbnail.
use uwuubox.Prelude.{◌≡◌, refl, false, true, none, some, codes, any, [], ◌∷◌, List}
use uwuubox.Prelude.Int.{pos}
use uwuubox.Objects.{ObjectRow, fresh_row}
use uwuubox.Storage.Fixtures.{name}
use uwuubox.Files.Rows.{World}
use uwuubox.Files.Fixtures.{world, erase, world-Counts}
use uwuubox.Gc.{Orphan, unreferenced, reclaim, inspect, find_object}
use uwuubox.Gc.Safety.{Spares, reclaim-Spares}
use uwuubox.Gc.Thumbnails.{inspect-thumbnails, reports_missing}

abbrev stale : List Orphan
stale = record { key = name; bytes = 5; reason = unreferenced } ∷ []

reclaim-Spares_example :
    Spares [] (world false none) (reclaim erase [] ((name, 5) ∷ []) stale 0 (world false none)).1
reclaim-Spares_example =
    reclaim-Spares erase [] ((name, 5) ∷ []) stale 0 (world false none) (world-Counts false none)

abbrev picture : ObjectRow
picture = fresh_row (3 ∷ []) (codes "thumbs/abcdefgh.jpg") (pos 9) (codes "image/jpeg")

abbrev pictured : World
pictured = record {
  files = [];
  objects = picture ∷ [];
  disk = (codes "thumbs/abcdefgh.jpg", 7 ∷ []) ∷ [];
}

found : find_object (codes "thumbs/abcdefgh.jpg") (picture ∷ []) ≡ some picture
unfolding find_object
found = refl

inspect-thumbnails_example :
    any (reports_missing (codes "thumbs/abcdefgh.jpg")) (inspect pictured []).0.orphans ≡ true
inspect-thumbnails_example =
    inspect-thumbnails pictured [] (codes "abcdefgh.jpg") picture found refl
