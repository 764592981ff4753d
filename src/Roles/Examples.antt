-- ===== src/Roles/Examples.antt =====
-- The theorems on the limits of a role, at a role that sets all of them and at one that sets one.
use uwuubox.Prelude.{Option, arith, some, none, codes, refl, ◌≡◌, true, ok, false, err}
use uwuubox.Prelude.Int.{ℤ, pos}
use uwuubox.Config.{default}
use uwuubox.Ids.{clamp_expiry, in_secs, crossed}
use uwuubox.Roles.{Role, limits_under, validate, validate_name}
use uwuubox.Roles.Expiry.{set, Straight, limits_under-Straight, validate-crossed}

abbrev role : Option ℤ → Option ℤ → Option ℤ → Role
role min_secs default_secs max_secs = record {
  id = codes "7";
  fields = record {
    name = codes "slow";
    max_file_bytes = none;
    max_paste_bytes = none;
    max_avatar_bytes = none;
    min_expiry_secs = min_secs;
    max_expiry_secs = max_secs;
    default_expiry_secs = default_secs;
    quota_bytes = none;
    can_publish_public = true;
    can_burn = true;
    can_comment = true;
    can_create_collections = true;
    can_moderate = false;
  };
}

limits_under-Straight_example :
    Straight (limits_under default (some (role (some (pos 5)) (some (pos 6)) (some (pos 7)))) none)
unfolding validate
limits_under-Straight_example =
    limits_under-Straight default (role (some (pos 5)) (some (pos 6)) (some (pos 7))) none
      (omega arith) (omega arith) refl (set (pos 5) (pos 6) (pos 7) refl refl refl)

validate-crossed_example :
    (validate (role (some (pos 3_000_000)) none none).fields ≡ ok tt)
    × (clamp_expiry (in_secs (pos 60)) (pos 3_000_000) (pos 86_400) (pos 2_592_000) true
        ≡ err crossed)
unfolding validate_name limits_under
validate-crossed_example =
    validate-crossed default (role (some (pos 3_000_000)) none none) none (pos 3_000_000) (pos 60)
      true refl refl refl refl refl
