-- ===== src/Config/Examples.antt =====
-- The theorems on the configuration, at the default one and at a small environment.
use uwuubox.Text.{show}
use uwuubox.Config.Environment.{
  flag, Host, value, not_present, load, Env, load_s3, load_oidc, local, load_smtp, base_url_of,
  storage_backend_of, session_secret_of, required, number, var,
}
use uwuubox.Prelude.{arith, ◌≡◌, replicate, refl, ◌∷◌, if◌then◌else◌}
use uwuubox.Prelude.Int.{pos, ◌+ℤ◌}
use uwuubox.Config.{
  default, validate, body_limit, instance_config, set_instance_config, codes, ok, none, true, false,
  [], bytes_eq,
}
use uwuubox.Config.RoundTrip.{IsStorable, instance_config-set_instance_config}
use uwuubox.Config.Limits.{HasLimits, validate-HasLimits, body_limit-above}
use uwuubox.Config.Environment.Complete.{IsComplete, load-IsComplete}

default-IsStorable : IsStorable default
default-IsStorable = record {
  named = λ e. cc;
  moded = λ e. cc;
  file_bytes = omega arith;
  paste_bytes = omega arith;
  avatar_bytes = omega arith;
  min_expiry = omega arith;
  max_expiry = omega arith;
  default_expiry = omega arith;
  anonymous_bytes = omega arith;
}

default-valid : validate default ≡ ok tt
unfolding validate
default-valid = refl

instance_config-set_instance_config_example :
    instance_config (λ s. s) (set_instance_config ((codes "tagline", codes "old") ∷ []) default)
    ≡ default
instance_config-set_instance_config_example =
    instance_config-set_instance_config (λ s. s) (refl, refl) ((codes "tagline", codes "old") ∷ [])
      default default-IsStorable

test_limits : HasLimits default
test_limits = validate-HasLimits default default-valid

test_body_limit : pos (body_limit default) ≡ pos 104_857_600 +ℤ pos 2_097_152
test_body_limit = body_limit-above default default-valid (omega arith)

-- An environment with the two required settings; the secret decodes to 32 zero bytes.
abbrev host : Host
host = record {
  getenv = λ name.
      if bytes_eq name (codes "UWUU_DATABASE_URL")
      then value (codes "postgres://db")
      else if bytes_eq name (codes "UWUU_SESSION_SECRET")
      then value (codes "00")
      else not_present;
  hex_decode = λ hex. ok (replicate 32 0);
  lower = λ s. s;
  debug = λ s. s;
}

abbrev loaded : Env
loaded = record {
  database_url = codes "postgres://db";
  port = 3000;
  session_secret = replicate 32 0;
  storage_backend = local;
  local_dir = codes "./data";
  s3 = record {
    s3_endpoint = none;
    s3_bucket = none;
    s3_region = codes "auto";
    s3_access_key = none;
    s3_secret_key = none;
    s3_path_style = true;
  };
  storage_encryption_key = none;
  oidc = record {
    oidc_enabled = false;
    oidc_discovery_url = none;
    oidc_client_id = none;
    oidc_client_secret = none;
    oidc_redirect_url = none;
  };
  base_url = codes "http://127.0.0.1:3000";
  smtp = record {
    smtp_host = none;
    smtp_port = 587;
    smtp_user = none;
    smtp_pass = none;
    smtp_from = none;
    smtp_starttls = true;
  };
  scan_command = none;
  scan_timeout_secs = 30;
  scan_fail_open = false;
  otel_endpoint = none;
}

loads : load host ≡ ok loaded
unfolding load load_s3 load_oidc load_smtp base_url_of storage_backend_of session_secret_of required
    number var flag show
loads = refl

load-IsComplete_example : IsComplete loaded
load-IsComplete_example = load-IsComplete host loaded loads
