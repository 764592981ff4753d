-- ===== src/Invites/Examples.antt =====
-- The theorem on invites, at a code for one use that two registrations ask for.
use uwuubox.Prelude.{ℕ, ◌≡◌, refl, false, none, some, err, codes, bytes_eq, arith, [], ◌∷◌, List}
use uwuubox.Text.{Text}
use uwuubox.Accounts.{User}
use uwuubox.Invites.{Register, create_user, invalid}
use uwuubox.Invites.Uses.{Tallies, registrations, registrations-Tallies, redeemed}

abbrev user : Text → User
user name = record {
  id = name;
  username = name;
  display_name = none;
  bio = none;
  avatar_key = none;
  password_hash = none;
  is_admin = false;
  role_id = none;
  quota_override_bytes = none;
  strip_exif_default = false;
  email = none;
  created_at = 0;
}

abbrev start : Register
start = record {
  invites = record { code = codes "c"; max_uses = some 1; uses = 0; expires_at = none } ∷ [];
  users = [];
  redemptions = [];
}

abbrev requests : List (ℕ × User × Text)
requests = (6, user (codes "ben"), codes "c") ∷ (5, user (codes "ann"), codes "c") ∷ []

start-Tallies : Tallies [] start.invites
unfolding Tallies redeemed
start-Tallies = (refl, omega arith, refl, tt)

test_second :
    (create_user bytes_eq 6
      (user (codes "ben"))
      (codes "c")
      (create_user bytes_eq 5 (user (codes "ann")) (codes "c") start).1).0
    ≡ err invalid
unfolding create_user
test_second = refl

registrations-Tallies_example :
    Tallies
      (registrations bytes_eq requests start).redemptions
      (registrations bytes_eq requests start).invites
registrations-Tallies_example = registrations-Tallies bytes_eq requests start start-Tallies
