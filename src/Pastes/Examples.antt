-- ===== src/Pastes/Examples.antt =====
-- Pastes that pass the checks and pastes that do not, and one that burns.
use uwuubox.Prelude.{◌≡◌, refl, false, none, some, ok, err, codes, Option, [], true, ◌∷◌}
use uwuubox.Prelude.Int.{pos}
use uwuubox.Text.{Text}
use uwuubox.Errors.{failed, too_large, not_found}
use uwuubox.Config.{default}
use uwuubox.Ids.{in_secs}
use uwuubox.Roles.{EffectiveLimits}
use uwuubox.Accounts.Auth.{Argon2}
use uwuubox.Pastes.{PasteRow, PasteInput, Caller, check_paste}
use uwuubox.Range.{full, satisfiable}
use uwuubox.Range.Bounds.{whole, part}
use uwuubox.Pastes.Reading.{send_paste, sent}
use uwuubox.Pastes.Burning.{delete_rows, send_paste-once}
use uwuubox.Pastes.Checks.{IsAdmissible, check_paste-IsAdmissible}

abbrev argon2 : Argon2
argon2 = record { hash_with = λ salt pw. ok pw; verify_with = λ hash pw. none }

abbrev limits : EffectiveLimits
limits = record {
  max_file_bytes = pos 100;
  max_paste_bytes = pos 4;
  max_avatar_bytes = pos 10;
  min_expiry_secs = pos 60;
  max_expiry_secs = pos 3600;
  default_expiry_secs = pos 600;
  quota_bytes = none;
  can_publish_public = false;
  can_burn = false;
  can_comment = false;
  can_create_collections = false;
  can_moderate = false;
}

abbrev caller : Caller
caller = record { user = none; cfg = default; limits = limits; now = 1000 }

abbrev input : Text → PasteInput
input body = record {
  title = some (codes " hi ");
  body = body;
  language = none;
  format = some (codes "markdown");
  visibility = some (codes "public");
  expires_in_secs = in_secs (pos 5);
  burn_after_read = false;
  access_password = none;
}

abbrev row : PasteRow
row = record {
  id_core = [];
  owner_id = none;
  title = some (codes "hi");
  body = codes "text";
  language = none;
  format = codes "markdown";
  visibility = codes "public";
  burn_after_read = false;
  access_password_hash = none;
  expires_at = some 1060;
  delete_token_hash = none;
  created_at = 1000;
}

abbrev detect : Option Text → Text → Option Text
detect hint body = hint

passes : check_paste (λ s. s) detect argon2 [] caller (input (codes "text")) ≡ ok row
unfolding check_paste
passes = refl

test_too_large :
    check_paste (λ s. s) detect argon2 [] caller (input (codes "texts"))
    ≡ err (failed (too_large (pos 4)))
unfolding check_paste
test_too_large = refl

check_paste-IsAdmissible_example : IsAdmissible caller (input (codes "text")) row
check_paste-IsAdmissible_example =
    check_paste-IsAdmissible (λ s. s) detect argon2 [] caller (input (codes "text")) row passes

abbrev burning : PasteRow
burning = record {
  id_core = codes "abcdefgh";
  owner_id = none;
  title = none;
  body = codes "text";
  language = none;
  format = codes "markdown";
  visibility = codes "public";
  burn_after_read = true;
  access_password_hash = none;
  expires_at = none;
  delete_token_hash = none;
  created_at = 1000;
}

-- A second request that holds the row, after the sweep of the other one.
send_paste-once_example :
    send_paste (λ s. s) burning (satisfiable 0 1) (delete_rows (codes "" ∷ []) (row ∷ []))
    ≡ (err (failed not_found), delete_rows (codes "" ∷ []) (row ∷ []))
unfolding send_paste
send_paste-once_example =
    send_paste-once (λ s. s) burning full (satisfiable 0 1) (burning ∷ row ∷ []) (row ∷ [])
      (sent (λ s. s) burning full) (codes "" ∷ []) refl whole (part 0 1) refl
