-- ===== src/RateLimit/Examples.antt =====
-- The theorem on the limiter, at one with room for one hit.
use uwuubox.Prelude.{codes, arith}
use uwuubox.RateLimit.{new, check, hits_of}
use uwuubox.RateLimit.Window.{IsChecked, check-IsChecked}

check-IsChecked_example :
    IsChecked
      (check (new 1 60) (codes "::1") 100).1
      (codes "::1")
      130
      (check (check (new 1 60) (codes "::1") 100).1 (codes "::1") 130)
unfolding new check hits_of
check-IsChecked_example =
    check-IsChecked (check (new 1 60) (codes "::1") 100).1 (codes "::1") 130 (omega arith)
