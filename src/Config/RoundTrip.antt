-- ===== src/Config/RoundTrip.antt =====
-- src/db.rs `set_instance_config`, then `instance_config`: the configuration comes back.
use uwuubox.Prelude.{◌≡◌, ◌≢◌, ap, ◌∙◌, true, false, refl}
use uwuubox.Prelude.Int.{ℤ}
use uwuubox.Text.{Text, show_ℤ, trim}
use uwuubox.Text.Decimal.{IsI64, parse_i64-show_ℤ}
use uwuubox.Config.{
  InstanceConfig, default, num, flag, from_map, instance_config, set_instance_config, parse_bool,
  codes, as_pairs, some, Option, Bool, show_bool, [], non_empty, or_current, present, ◌∷◌,
}
use uwuubox.Config.Table.{Rows, lookup, upsert_all, lookup-upsert_all, last_of, or_else}

-- The numbers are those of an `i64`, and the two texts that an empty value does not replace are not
-- empty.
pub record IsStorable (cfg : InstanceConfig) : Type 0 where
  pub named : cfg.instance_name ≢ []
  pub moded : cfg.registration_mode ≢ []
  pub file_bytes : IsI64 cfg.max_file_bytes
  pub paste_bytes : IsI64 cfg.max_paste_bytes
  pub avatar_bytes : IsI64 cfg.max_avatar_bytes
  pub min_expiry : IsI64 cfg.min_expiry_secs
  pub max_expiry : IsI64 cfg.max_expiry_secs
  pub default_expiry : IsI64 cfg.default_expiry_secs
  pub anonymous_bytes : IsI64 cfg.anonymous_max_bytes

-- `str::to_lowercase` keeps ASCII text without capitals.
abbrev pub IsLower : (Text → Text) → Type 0
IsLower lower = (lower (codes "true") ≡ codes "true") × (lower (codes "false") ≡ codes "false")

num-show : (z cur : ℤ) → IsI64 z → num (some (show_ℤ z)) cur ≡ z
unfolding num
num-show z cur h = ap (λ o. or_current o cur) (parse_i64-show_ℤ z h)

non_empty-kept : (s cur : Text) → s ≢ [] → non_empty (some s) cur ≡ s
non_empty-kept [] cur h = absurd (h refl)
non_empty-kept (c ∷ s) cur h = refl

num_set : {o : Option Text} {z : ℤ} (cur : ℤ) → o ≡ some (show_ℤ z) → IsI64 z → num o cur ≡ z
num_set {o} {z} cur e h = ap (λ o. num o cur) e ∙ num-show z cur h

name_set : {o : Option Text} {s : Text} (cur : Text) → o ≡ some s → s ≢ [] → non_empty o cur ≡ s
name_set {o} {s} cur e h = ap (λ o. non_empty o cur) e ∙ non_empty-kept s cur h

module _ (lower : Text → Text) (low : IsLower lower) where
  flag-show : (b cur : Bool) → flag lower (some (show_bool b)) cur ≡ b
  unfolding flag parse_bool trim
  flag-show true cur = let (t, f) = low in rw t refl
  flag-show false cur = let (t, f) = low in rw f refl

  flag_set :
      {o : Option Text} {b : Bool} (cur : Bool) → o ≡ some (show_bool b) → flag lower o cur ≡ b
  flag_set {o} {b} cur e = ap (λ o. flag lower o cur) e ∙ flag-show b cur

  from_map-pairs :
      (get : Text → Option Text) (cfg : InstanceConfig)
      → IsStorable cfg
      → ((k : Text) (v : Text) → last_of k (as_pairs cfg) ≡ some v → get k ≡ some v)
      → from_map lower get ≡ cfg
  unfolding from_map as_pairs
  from_map-pairs get cfg h at = λ i. record {
    instance_name =
        name_set default.instance_name (at (codes "instance_name") cfg.instance_name refl) h.named
          i;
    tagline = ap (λ o. present o default.tagline) (at (codes "tagline") cfg.tagline refl) i;
    icon_url = ap (λ o. present o default.icon_url) (at (codes "icon_url") cfg.icon_url refl) i;
    max_file_bytes =
        num_set default.max_file_bytes
          (at (codes "max_file_bytes") (show_ℤ cfg.max_file_bytes) refl) h.file_bytes i;
    max_paste_bytes =
        num_set default.max_paste_bytes
          (at (codes "max_paste_bytes") (show_ℤ cfg.max_paste_bytes) refl) h.paste_bytes i;
    max_avatar_bytes =
        num_set default.max_avatar_bytes
          (at (codes "max_avatar_bytes") (show_ℤ cfg.max_avatar_bytes) refl) h.avatar_bytes i;
    min_expiry_secs =
        num_set default.min_expiry_secs
          (at (codes "min_expiry_secs") (show_ℤ cfg.min_expiry_secs) refl) h.min_expiry i;
    max_expiry_secs =
        num_set default.max_expiry_secs
          (at (codes "max_expiry_secs") (show_ℤ cfg.max_expiry_secs) refl) h.max_expiry i;
    default_expiry_secs =
        num_set default.default_expiry_secs
          (at (codes "default_expiry_secs") (show_ℤ cfg.default_expiry_secs) refl) h.default_expiry
          i;
    allow_anonymous =
        flag_set default.allow_anonymous
          (at (codes "allow_anonymous") (show_bool cfg.allow_anonymous) refl) i;
    allow_registration =
        flag_set default.allow_registration
          (at (codes "allow_registration") (show_bool cfg.allow_registration) refl) i;
    allow_local_login =
        flag_set default.allow_local_login
          (at (codes "allow_local_login") (show_bool cfg.allow_local_login) refl) i;
    allow_oidc =
        flag_set default.allow_oidc (at (codes "allow_oidc") (show_bool cfg.allow_oidc) refl) i;
    anonymous_max_bytes =
        num_set default.anonymous_max_bytes
          (at (codes "anonymous_max_bytes") (show_ℤ cfg.anonymous_max_bytes) refl) h.anonymous_bytes
          i;
    registration_mode =
        name_set default.registration_mode
          (at (codes "registration_mode") cfg.registration_mode refl) h.moded i;
    scan_uploads =
        flag_set default.scan_uploads (at (codes "scan_uploads") (show_bool cfg.scan_uploads) refl)
          i;
    block_encrypted_archives =
        flag_set default.block_encrypted_archives
          (at (codes "block_encrypted_archives") (show_bool cfg.block_encrypted_archives) refl) i;
    allow_anonymous_never_expiry =
        flag_set default.allow_anonymous_never_expiry
          (at (codes "allow_anonymous_never_expiry") (show_bool cfg.allow_anonymous_never_expiry)
            refl)
          i;
    allow_never_expiry =
        flag_set default.allow_never_expiry
          (at (codes "allow_never_expiry") (show_bool cfg.allow_never_expiry) refl) i;
  }

  -- A configuration with 64-bit numbers, a name and a registration mode, written over any rows by
  -- `set_instance_config`, is what `instance_config` reads back, if `to_lowercase` keeps the
  -- words `true` and `false`.
  pub instance_config-set_instance_config :
      (rows : Rows) (cfg : InstanceConfig)
      → IsStorable cfg
      → instance_config lower (set_instance_config rows cfg) ≡ cfg
  unfolding instance_config set_instance_config
  instance_config-set_instance_config rows cfg h =
      from_map-pairs (λ k. lookup k (upsert_all (as_pairs cfg) rows)) cfg h
        (λ k v e. lookup-upsert_all k (as_pairs cfg) rows ∙ ap (λ o. or_else o (lookup k rows)) e)
