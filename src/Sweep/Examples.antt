-- ===== src/Sweep/Examples.antt =====
-- The theorem on the sweep, at one file that has expired.
use uwuubox.Prelude.{◌≡◌, refl, false, none, arith, [], ◌∷◌, ◌≤◌, length}
use uwuubox.Text.{Text}
use uwuubox.Files.Rows.{find_file, disk_delete}
use uwuubox.Objects.{count_down}
use uwuubox.Files.References.{refs_of}
use uwuubox.Files.Keys.{IsKeyed}
use uwuubox.Files.Fixtures.{file_row, world, erase, world-Counts, few_refs, safe_refs}
use uwuubox.Sweep.{Metrics, expired, file_expiry, run_once}
use uwuubox.Sweep.Progress.{IsSound, run_once-live_only, live_only}

abbrev idle : Metrics
idle = record { sweeper_runs = 0; files_swept = 0; pastes_swept = 0 }

sound : IsSound (world false none)
unfolding IsKeyed find_file refs_of
sound = record {
  keyed = (refl, tt);
  exact = world-Counts false none;
  small = few_refs;
  safe = safe_refs;
}

few : length (expired file_expiry 200 (file_row false none ∷ [])) ≤ 500
unfolding expired
few = omega arith

test_swept : (run_once erase 200 (world false none) [] idle).world.disk ≡ []
unfolding run_once count_down disk_delete
test_swept = refl

run_once-live_only_example :
    IsSound (run_once erase 200 (world false none) [] idle).world
    × ((core : Text)
        → find_file core (run_once erase 200 (world false none) [] idle).world.files
          ≡ live_only 200 (find_file core (file_row false none ∷ [])))
run_once-live_only_example =
    run_once-live_only erase (λ key. refl) 200 (world false none) [] idle sound few
