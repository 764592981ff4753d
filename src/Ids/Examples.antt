-- ===== src/Ids/Examples.antt =====
-- The theorems on ids and lifetimes, at small inputs, and tests of the definitions.
use uwuubox.Prelude.{true, arith, ◌≡◌, refl, ◌∷◌, ◌++◌}
use uwuubox.Prelude.Int.{pos}
use uwuubox.Ids.{
  clamp_expiry, in_secs, generate_core, strip_to_core, normalize_ext, parse_expiry_param, never,
  some, codes, ok, [],
}
use uwuubox.Ids.Expiry.{Granted, clamp_expiry-Granted}
use uwuubox.Ids.Names.{IsExt, strip_to_core-generate_core, normalize_ext-IsExt}

test-IsExt : normalize_ext (λ s. s) (codes "archive.tar.gz") ≡ codes ".gz"
unfolding normalize_ext
test-IsExt = refl

test_hidden : normalize_ext (λ s. s) (codes ".hidden") ≡ []
unfolding normalize_ext
test_hidden = refl

test_never : parse_expiry_param (some (codes " NEVER ")) ≡ ok never
unfolding parse_expiry_param
test_never = refl

clamp_expiry-Granted_example :
    Granted
      (in_secs (pos 9))
      (pos 600)
      (pos 2_592_000)
      true
      (clamp_expiry (in_secs (pos 9)) (pos 600) (pos 86_400) (pos 2_592_000) true)
clamp_expiry-Granted_example =
    clamp_expiry-Granted (in_secs (pos 9)) (pos 600) (pos 86_400) (pos 2_592_000) true (omega arith)
      (omega arith)

test_core :
    strip_to_core (generate_core (0 ∷ 255 ∷ 7 ∷ 33 ∷ 4 ∷ 5 ∷ 6 ∷ 7 ∷ []) ++ b'.' ∷ codes "tar.gz")
    ≡ generate_core (0 ∷ 255 ∷ 7 ∷ 33 ∷ 4 ∷ 5 ∷ 6 ∷ 7 ∷ [])
test_core = strip_to_core-generate_core (0 ∷ 255 ∷ 7 ∷ 33 ∷ 4 ∷ 5 ∷ 6 ∷ 7 ∷ []) (codes "tar.gz")

test_photo-IsExt : IsExt (normalize_ext (λ s. s) (codes "photo.jpeg"))
test_photo-IsExt = normalize_ext-IsExt (λ s. s) (codes "photo.jpeg")
