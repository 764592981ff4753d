-- ===== src/Config.antt =====
-- src/config.rs, the instance configuration of the database: its record, its rows, its limits.
-- `str::to_lowercase` is a parameter, `lower`.
pub mod Table
pub mod Environment
pub mod RoundTrip
pub mod Limits
mod Examples
use uwuubox.Prelude.{
  ℕ, Bool, codes, if◌then◌else◌, List, Option, suc, [], any, ltb, ◌∷◌, Result, ◌&&◌, some, zero,
  true, ok, ◌||◌, bytes_eq, none, guard, false, leb, ◌*◌, ◌>>◌, ◌++◌, ◌-◌, not,
}
use uwuubox.Prelude.Int.{ℤ, pos, negsuc, ◌+ℤ◌, ltb_ℤ}
use uwuubox.Text.{Text, parse_i64, len, trim, starts_with, i64_bound, show_ℤ, neg, is_empty}
use uwuubox.Config.Table.{Rows, lookup, upsert_all}

pub record InstanceConfig : Type 0 where
  pub instance_name : Text
  pub tagline : Text
  pub icon_url : Text
  pub max_file_bytes : ℤ
  pub max_paste_bytes : ℤ
  pub max_avatar_bytes : ℤ
  pub min_expiry_secs : ℤ
  pub max_expiry_secs : ℤ
  pub default_expiry_secs : ℤ
  pub allow_anonymous : Bool
  pub allow_registration : Bool
  pub allow_local_login : Bool
  pub allow_oidc : Bool
  pub anonymous_max_bytes : ℤ
  pub registration_mode : Text
  pub scan_uploads : Bool
  pub block_encrypted_archives : Bool
  pub allow_anonymous_never_expiry : Bool
  pub allow_never_expiry : Bool

abbrev pub default : InstanceConfig
default = record {
  instance_name = codes "uwuubox";
  tagline = [];
  icon_url = [];
  max_file_bytes = pos 104_857_600;
  max_paste_bytes = pos 1_048_576;
  max_avatar_bytes = pos 2_097_152;
  min_expiry_secs = pos 600;
  max_expiry_secs = pos 2_592_000;
  default_expiry_secs = pos 86_400;
  allow_anonymous = true;
  allow_registration = true;
  allow_local_login = true;
  allow_oidc = false;
  anonymous_max_bytes = pos 26_214_400;
  registration_mode = codes "open";
  scan_uploads = false;
  block_encrypted_archives = false;
  allow_anonymous_never_expiry = false;
  allow_never_expiry = true;
}

abbrev one_of : Text → List Text → Bool
one_of s words = any (bytes_eq s) words

unfoldable pub parse_bool : (Text → Text) → Text → Option Bool
unfolding trim
parse_bool lower s =
    let word = lower (trim s) in
    if one_of word (codes "1" ∷ codes "true" ∷ codes "yes" ∷ codes "on" ∷ [])
    then some true
    else if one_of word (codes "0" ∷ codes "false" ∷ codes "no" ∷ codes "off" ∷ [])
    then some false
    else none

-- `map.get(k).map(String::as_str).unwrap_or("")`, then kept unless empty
abbrev pub non_empty : Option Text → Text → Text
non_empty none cur = cur
non_empty (some []) cur = cur
non_empty (some (c ∷ v)) cur = c ∷ v

abbrev pub present : Option Text → Text → Text
present none cur = cur
present (some v) cur = v

abbrev pub or_current {ℓ} : {A : Type ℓ} → Option A → A → A
or_current none cur = cur
or_current (some a) cur = a

unfoldable pub num : Option Text → ℤ → ℤ
unfolding parse_i64
num none cur = cur
num (some v) cur = or_current (parse_i64 v) cur

unfoldable pub flag : (Text → Text) → Option Text → Bool → Bool
unfolding parse_bool
flag lower none cur = cur
flag lower (some v) cur = or_current (parse_bool lower v) cur

-- The fields that the map holds, over those of `cfg`.
unfoldable pub overlay : (Text → Text) → (Text → Option Text) → InstanceConfig → InstanceConfig
unfolding num flag
overlay lower get cfg = record {
  instance_name = non_empty (get (codes "instance_name")) cfg.instance_name;
  tagline = present (get (codes "tagline")) cfg.tagline;
  icon_url = present (get (codes "icon_url")) cfg.icon_url;
  max_file_bytes = num (get (codes "max_file_bytes")) cfg.max_file_bytes;
  max_paste_bytes = num (get (codes "max_paste_bytes")) cfg.max_paste_bytes;
  max_avatar_bytes = num (get (codes "max_avatar_bytes")) cfg.max_avatar_bytes;
  min_expiry_secs = num (get (codes "min_expiry_secs")) cfg.min_expiry_secs;
  max_expiry_secs = num (get (codes "max_expiry_secs")) cfg.max_expiry_secs;
  default_expiry_secs = num (get (codes "default_expiry_secs")) cfg.default_expiry_secs;
  allow_anonymous = flag lower (get (codes "allow_anonymous")) cfg.allow_anonymous;
  allow_registration = flag lower (get (codes "allow_registration")) cfg.allow_registration;
  allow_local_login = flag lower (get (codes "allow_local_login")) cfg.allow_local_login;
  allow_oidc = flag lower (get (codes "allow_oidc")) cfg.allow_oidc;
  anonymous_max_bytes = num (get (codes "anonymous_max_bytes")) cfg.anonymous_max_bytes;
  registration_mode = non_empty (get (codes "registration_mode")) cfg.registration_mode;
  scan_uploads = flag lower (get (codes "scan_uploads")) cfg.scan_uploads;
  block_encrypted_archives =
      flag lower (get (codes "block_encrypted_archives")) cfg.block_encrypted_archives;
  allow_anonymous_never_expiry =
      flag lower (get (codes "allow_anonymous_never_expiry")) cfg.allow_anonymous_never_expiry;
  allow_never_expiry = flag lower (get (codes "allow_never_expiry")) cfg.allow_never_expiry;
}

unfoldable pub from_map : (Text → Text) → (Text → Option Text) → InstanceConfig
unfolding overlay
from_map lower get = overlay lower get default

-- `bool::to_string`
abbrev pub show_bool : Bool → Text
show_bool true = codes "true"
show_bool false = codes "false"

unfoldable pub as_pairs : InstanceConfig → Rows
as_pairs cfg =
    (codes "instance_name", cfg.instance_name)
    ∷ (codes "tagline", cfg.tagline)
    ∷ (codes "icon_url", cfg.icon_url)
    ∷ (codes "max_file_bytes", show_ℤ cfg.max_file_bytes)
    ∷ (codes "max_paste_bytes", show_ℤ cfg.max_paste_bytes)
    ∷ (codes "max_avatar_bytes", show_ℤ cfg.max_avatar_bytes)
    ∷ (codes "min_expiry_secs", show_ℤ cfg.min_expiry_secs)
    ∷ (codes "max_expiry_secs", show_ℤ cfg.max_expiry_secs)
    ∷ (codes "default_expiry_secs", show_ℤ cfg.default_expiry_secs)
    ∷ (codes "allow_anonymous", show_bool cfg.allow_anonymous)
    ∷ (codes "allow_registration", show_bool cfg.allow_registration)
    ∷ (codes "allow_local_login", show_bool cfg.allow_local_login)
    ∷ (codes "allow_oidc", show_bool cfg.allow_oidc)
    ∷ (codes "anonymous_max_bytes", show_ℤ cfg.anonymous_max_bytes)
    ∷ (codes "registration_mode", cfg.registration_mode)
    ∷ (codes "scan_uploads", show_bool cfg.scan_uploads)
    ∷ (codes "block_encrypted_archives", show_bool cfg.block_encrypted_archives)
    ∷ (codes "allow_anonymous_never_expiry", show_bool cfg.allow_anonymous_never_expiry)
    ∷ (codes "allow_never_expiry", show_bool cfg.allow_never_expiry)
    ∷ []

-- db.rs: the configuration that the rows of `instance_config` hold, and writing one to them.
unfoldable pub instance_config : (Text → Text) → Rows → InstanceConfig
unfolding from_map
instance_config lower rows = from_map lower (λ k. lookup k rows)

unfoldable pub set_instance_config : Rows → InstanceConfig → Rows
unfolding as_pairs
set_instance_config rows cfg = upsert_all (as_pairs cfg) rows

-- Arithmetic on an `i64` wraps around.
abbrev pub wrap_i64 : ℤ → ℤ
wrap_i64 (pos n) = if ltb n i64_bound then pos n else neg (2 * i64_bound - n)
wrap_i64 (negsuc n) = if ltb n i64_bound then negsuc n else pos (2 * i64_bound - 1 - n)

abbrev pub at_least_one : ℤ → ℕ
at_least_one (pos zero) = 1
at_least_one (pos (suc n)) = suc n
at_least_one (negsuc n) = 1

unfoldable pub body_limit : InstanceConfig → ℕ
unfolding ◌+ℤ◌
body_limit cfg = at_least_one (wrap_i64 (cfg.max_file_bytes +ℤ pos 2_097_152))

abbrev pub positive : List (Text × ℤ) → Result Text Unit
positive [] = ok tt
positive ((k, v) ∷ rest) = guard (ltb_ℤ (pos 0) v) (k ++ codes " must be positive") >> positive rest

unfoldable pub validate : InstanceConfig → Result Text Unit
unfolding len starts_with
validate cfg =
    guard (leb (len cfg.tagline) 140) (codes "tagline must be <= 140 chars")
    >> guard (leb (len cfg.icon_url) 512) (codes "icon_url must be <= 512 chars")
    >> guard
        (is_empty cfg.icon_url
          || starts_with (codes "https://") cfg.icon_url
          || starts_with (codes "/") cfg.icon_url)
        (codes "icon_url must be https:// or a site-relative path")
    >> positive (
        (codes "max_file_bytes", cfg.max_file_bytes)
        ∷ (codes "max_paste_bytes", cfg.max_paste_bytes)
        ∷ (codes "max_avatar_bytes", cfg.max_avatar_bytes)
        ∷ (codes "min_expiry_secs", cfg.min_expiry_secs)
        ∷ (codes "max_expiry_secs", cfg.max_expiry_secs)
        ∷ (codes "default_expiry_secs", cfg.default_expiry_secs)
        ∷ (codes "anonymous_max_bytes", cfg.anonymous_max_bytes)
        ∷ [])
    >> guard (not (ltb_ℤ cfg.max_file_bytes cfg.anonymous_max_bytes))
        (codes "anonymous_max_bytes <= max_file_bytes violated")
    >> guard (not (ltb_ℤ cfg.default_expiry_secs cfg.min_expiry_secs))
        (codes "min_expiry_secs <= default_expiry_secs violated")
    >> guard (not (ltb_ℤ cfg.max_expiry_secs cfg.default_expiry_secs))
        (codes "default_expiry_secs <= max_expiry_secs violated")
    >> guard (one_of cfg.registration_mode (codes "open" ∷ codes "invite" ∷ codes "closed" ∷ []))
        (codes "registration_mode must be open|invite|closed")

unfoldable pub allow_never : InstanceConfig → Bool → Bool
allow_never cfg authed = cfg.allow_never_expiry && (authed || cfg.allow_anonymous_never_expiry)
