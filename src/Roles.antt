-- ===== src/Roles.antt =====
-- src/routes/roles.rs (the checks of a role) and src/db.rs (the limits that a caller has).
pub mod Expiry
mod Examples
use uwuubox.Prelude.{
  ℕ, List, Option, Result, Bool, false, ◌>>◌, some, none, guard, true, leb, not, ◌∷◌, ◌||◌, ◌&&◌,
  if◌then◌else◌, codes, all, ◌==◌, bytes_eq, [],
}
use uwuubox.Prelude.Int.{ℤ, pos, negsuc, ltb_ℤ}
use uwuubox.Text.{Text, len, is_ascii_lowercase, is_ascii_digit}
use uwuubox.Config.{InstanceConfig}

pub record RoleInput : Type 0 where
  pub name : Text
  pub max_file_bytes : Option ℤ
  pub max_paste_bytes : Option ℤ
  pub max_avatar_bytes : Option ℤ
  pub min_expiry_secs : Option ℤ
  pub max_expiry_secs : Option ℤ
  pub default_expiry_secs : Option ℤ
  pub quota_bytes : Option ℤ
  pub can_publish_public : Bool
  pub can_burn : Bool
  pub can_comment : Bool
  pub can_create_collections : Bool
  pub can_moderate : Bool

-- A row of `roles`: its id, and the fields that the form gave.
pub record Role : Type 0 where
  pub id : Text
  pub fields : RoleInput

abbrev name_char : ℕ → Bool
name_char c = is_ascii_lowercase c || is_ascii_digit c || (c == b'_') || (c == b'-')

unfoldable pub validate_name : Text → Result Text Unit
unfolding len
validate_name name =
    guard (leb 3 (len name) && leb (len name) 32) (codes "role name must be 3 to 32 characters")
    >> guard (all name_char name) (codes "role name may contain only lowercase a-z, 0-9, _ and -")

abbrev negative_quota : Option ℤ → Bool
negative_quota none = false
negative_quota (some quota) = ltb_ℤ quota (pos 0)

-- The order of the three expiry limits is looked at only where all are given.
abbrev pub ordered : Option ℤ → Option ℤ → Option ℤ → Bool
ordered (some min_secs) (some default_secs) (some max_secs) =
    not (ltb_ℤ default_secs min_secs) && not (ltb_ℤ max_secs default_secs)
ordered (some min_secs) (some default_secs) none = true
ordered (some min_secs) none max_secs = true
ordered none default_secs max_secs = true

unfoldable pub validate : RoleInput → Result Text Unit
unfolding validate_name
validate input =
    validate_name input.name
    >> guard (not (negative_quota input.quota_bytes)) (codes "quota_bytes must be at least 0")
    >> guard (ordered input.min_expiry_secs input.default_expiry_secs input.max_expiry_secs)
        (codes "expiry limits must satisfy min <= default <= max")

-- The columns of `users` that the limits read.
pub record User : Type 0 where
  pub role_id : Option Text
  pub quota_override_bytes : Option ℤ

pub record EffectiveLimits : Type 0 where
  pub max_file_bytes : ℤ
  pub max_paste_bytes : ℤ
  pub max_avatar_bytes : ℤ
  pub min_expiry_secs : ℤ
  pub max_expiry_secs : ℤ
  pub default_expiry_secs : ℤ
  pub quota_bytes : Option ℤ
  pub can_publish_public : Bool
  pub can_burn : Bool
  pub can_comment : Bool
  pub can_create_collections : Bool
  pub can_moderate : Bool

unfoldable pub find_role : List Role → Text → Option Role
find_role [] id = none
find_role (role ∷ roles) id = if bytes_eq role.id id then some role else find_role roles id

abbrev pub find_role_of : List Role → Option Text → Option Role
find_role_of roles none = none
find_role_of roles (some id) = find_role roles id

abbrev pub role_of : List Role → Option User → Option Role
role_of roles none = none
role_of roles (some user) = find_role_of roles user.role_id

abbrev pub or_else {ℓ} : {A : Type ℓ} → Option A → Option A → Option A
or_else none o = o
or_else (some a) o = some a

abbrev quota_override : Option User → Option ℤ
quota_override none = none
quota_override (some user) = user.quota_override_bytes

abbrev pick {ℓ} : {A : Type ℓ} → Option A → A → A
pick none d = d
pick (some a) d = a

-- The limits under the role, if there is one.
unfoldable pub limits_under : InstanceConfig → Option Role → Option ℤ → EffectiveLimits
limits_under cfg none quota_override = record {
  max_file_bytes = cfg.max_file_bytes;
  max_paste_bytes = cfg.max_paste_bytes;
  max_avatar_bytes = cfg.max_avatar_bytes;
  min_expiry_secs = cfg.min_expiry_secs;
  max_expiry_secs = cfg.max_expiry_secs;
  default_expiry_secs = cfg.default_expiry_secs;
  quota_bytes = quota_override;
  can_publish_public = true;
  can_burn = true;
  can_comment = true;
  can_create_collections = true;
  can_moderate = false;
}
limits_under cfg (some role) quota_override =
    let r = role.fields in
    record {
      max_file_bytes = pick r.max_file_bytes cfg.max_file_bytes;
      max_paste_bytes = pick r.max_paste_bytes cfg.max_paste_bytes;
      max_avatar_bytes = pick r.max_avatar_bytes cfg.max_avatar_bytes;
      min_expiry_secs = pick r.min_expiry_secs cfg.min_expiry_secs;
      max_expiry_secs = pick r.max_expiry_secs cfg.max_expiry_secs;
      default_expiry_secs = pick r.default_expiry_secs cfg.default_expiry_secs;
      quota_bytes = or_else quota_override r.quota_bytes;
      can_publish_public = r.can_publish_public;
      can_burn = r.can_burn;
      can_comment = r.can_comment;
      can_create_collections = r.can_create_collections;
      can_moderate = r.can_moderate;
    }

unfoldable pub effective_limits : List Role → InstanceConfig → Option User → EffectiveLimits
unfolding limits_under find_role
effective_limits roles cfg user = limits_under cfg (role_of roles user) (quota_override user)
