-- ===== src/Config/Environment.antt =====
-- src/config.rs, `Env::load`: the settings that the environment holds.
pub mod Complete
use mathlib.Core.List.{reverse, ◌∷◌, List, []}
use uwuubox.Prelude.{
  length, ℕ, Bytes, ◌>>=◌, err, ◌==◌, ◌^◌, ok_or, none, ◌++◌, if◌then◌else◌, ◌>>◌, ◌&&◌, [],
}
use uwuubox.Text.{Text, trim, is_empty, parse_unsigned, show}
use uwuubox.ObjectCrypt.{parse_key}
use uwuubox.Config.{
  parse_bool, Option, codes, Bool, Result, false, true, ok, some, guard, bytes_eq, not,
}

pub data ConfigError : Type 0 where
  missing : Text → ConfigError
  invalid : Text → Text → ConfigError

pub data StorageBackend : Type 0 where
  local : StorageBackend
  s3 : StorageBackend

-- `env::var`
pub data Var : Type 0 where
  value : Text → Var
  not_present : Var
  not_unicode : Var

-- The process environment, `hex::decode`, and the two functions of Rust's library that rest on tables
-- of Unicode: `to_lowercase` and the `{:?}` of a string.
pub record Host : Type 0 where
  pub getenv : Text → Var
  pub hex_decode : Text → Result Text Bytes
  pub lower : Text → Text
  pub debug : Text → Text

abbrev pub Loaded : Type 0 → Type 0
Loaded A = Result ConfigError A

abbrev non_blank : Text → Var → Loaded (Option Text)
non_blank name (value v) = if is_empty (trim v) then ok none else ok (some v)
non_blank name not_present = ok none
non_blank name not_unicode = err (invalid name (codes "not valid unicode"))

unfoldable pub var : Host → Text → Loaded (Option Text)
unfolding trim
var host name = non_blank name (host.getenv name)

unfoldable pub required : Host → Text → Loaded Text
unfolding var
required host name = var host name >>= λ v. ok_or v (missing name)

abbrev flag_value : Host → Text → Bool → Option Text → Loaded Bool
flag_value host name default none = ok default
flag_value host name default (some v) =
    ok_or (parse_bool host.lower v) (invalid name (host.debug v ++ codes " is not a bool"))

unfoldable pub flag : Host → Text → Bool → Loaded Bool
unfolding var
flag host name default = var host name >>= flag_value host name default

abbrev number_value : ℕ → Text → ℕ → Option Text → Loaded ℕ
number_value bound name default none = ok default
number_value bound name default (some v) = ok_or (parse_unsigned bound v) (invalid name v)

-- A number of the type whose values lie below the bound.
unfoldable pub number : Host → ℕ → Text → ℕ → Loaded ℕ
unfolding var
number host bound name default = var host name >>= number_value bound name default

abbrev pub secret_of : Result Text Bytes → Loaded Bytes
secret_of (err e) = err (invalid (codes "UWUU_SESSION_SECRET") e)
secret_of (ok bytes) =
    if length bytes == 32
    then ok bytes
    else err (
        invalid (codes "UWUU_SESSION_SECRET")
          (codes "want 64 hex chars (32 bytes), got " ++ show (length bytes) ++ codes " bytes"))

unfoldable pub session_secret_of : Host → Text → Loaded Bytes
session_secret_of host secret_hex = secret_of (host.hex_decode (trim secret_hex))

abbrev pub unwrap_or : Option Text → Text → Text
unwrap_or none d = d
unwrap_or (some t) d = t

abbrev backend_of : Host → Text → Loaded StorageBackend
backend_of host word =
    if bytes_eq word (codes "local")
    then ok local
    else if bytes_eq word (codes "s3")
    then ok s3
    else err (invalid (codes "UWUU_STORAGE_BACKEND") (host.debug word ++ codes ": want local|s3"))

unfoldable pub storage_backend_of : Host → Option Text → Loaded StorageBackend
storage_backend_of host v = backend_of host (host.lower (unwrap_or v (codes "local")))

abbrev pub is_some : Option Text → Bool
is_some none = false
is_some (some t) = true

abbrev pub is_s3 : StorageBackend → Bool
is_s3 local = false
is_s3 s3 = true

-- If `on`, all four settings must be there.
unfoldable pub all_set : Bool → List (Text × Option Text) → Loaded Unit
all_set false settings = ok tt
all_set true [] = ok tt
all_set true ((name, v) ∷ settings) = guard (is_some v) (missing name) >> all_set true settings

pub record S3Settings : Type 0 where
  pub s3_endpoint : Option Text
  pub s3_bucket : Option Text
  pub s3_region : Text
  pub s3_access_key : Option Text
  pub s3_secret_key : Option Text
  pub s3_path_style : Bool

abbrev pub s3_credentials : S3Settings → List (Text × Option Text)
s3_credentials s =
    (codes "UWUU_S3_ENDPOINT", s.s3_endpoint)
    ∷ (codes "UWUU_S3_BUCKET", s.s3_bucket)
    ∷ (codes "UWUU_S3_ACCESS_KEY", s.s3_access_key)
    ∷ (codes "UWUU_S3_SECRET_KEY", s.s3_secret_key)
    ∷ []

abbrev pub checked : {A : Type 0} → Loaded (Unit {0}) → A → Result ConfigError A
checked (ok u) a = ok a
checked (err e) a = err e

unfoldable pub load_s3 : Host → StorageBackend → Loaded S3Settings
unfolding all_set
load_s3 host backend = var host (codes "UWUU_S3_ENDPOINT") >>= λ endpoint.
    var host (codes "UWUU_S3_BUCKET") >>= λ bucket. var host (codes "UWUU_S3_REGION") >>= λ region.
    var host (codes "UWUU_S3_ACCESS_KEY") >>= λ access_key.
    var host (codes "UWUU_S3_SECRET_KEY") >>= λ secret_key.
    flag host (codes "UWUU_S3_PATH_STYLE") true >>= λ path_style.
    let settings : S3Settings = record {
      s3_endpoint = endpoint;
      s3_bucket = bucket;
      s3_region = unwrap_or region (codes "auto");
      s3_access_key = access_key;
      s3_secret_key = secret_key;
      s3_path_style = path_style;
    } in
    checked (all_set (is_s3 backend) (s3_credentials settings)) settings

pub record OidcSettings : Type 0 where
  pub oidc_enabled : Bool
  pub oidc_discovery_url : Option Text
  pub oidc_client_id : Option Text
  pub oidc_client_secret : Option Text
  pub oidc_redirect_url : Option Text

abbrev pub oidc_credentials : OidcSettings → List (Text × Option Text)
oidc_credentials s =
    (codes "UWUU_OIDC_DISCOVERY_URL", s.oidc_discovery_url)
    ∷ (codes "UWUU_OIDC_CLIENT_ID", s.oidc_client_id)
    ∷ (codes "UWUU_OIDC_CLIENT_SECRET", s.oidc_client_secret)
    ∷ (codes "UWUU_OIDC_REDIRECT_URL", s.oidc_redirect_url)
    ∷ []

unfoldable pub load_oidc : Host → Loaded OidcSettings
unfolding all_set
load_oidc host = flag host (codes "UWUU_OIDC_ENABLED") false >>= λ enabled.
    var host (codes "UWUU_OIDC_DISCOVERY_URL") >>= λ discovery_url.
    var host (codes "UWUU_OIDC_CLIENT_ID") >>= λ client_id.
    var host (codes "UWUU_OIDC_CLIENT_SECRET") >>= λ client_secret.
    var host (codes "UWUU_OIDC_REDIRECT_URL") >>= λ redirect_url.
    let settings : OidcSettings = record {
      oidc_enabled = enabled;
      oidc_discovery_url = discovery_url;
      oidc_client_id = client_id;
      oidc_client_secret = client_secret;
      oidc_redirect_url = redirect_url;
    } in
    checked (all_set enabled (oidc_credentials settings)) settings

pub record SmtpSettings : Type 0 where
  pub smtp_host : Option Text
  pub smtp_port : ℕ
  pub smtp_user : Option Text
  pub smtp_pass : Option Text
  pub smtp_from : Option Text
  pub smtp_starttls : Bool

unfoldable pub load_smtp : Host → Loaded SmtpSettings
load_smtp host = var host (codes "UWUU_SMTP_HOST") >>= λ smtp_host.
    number host (2 ^ 16) (codes "UWUU_SMTP_PORT") 587 >>= λ port.
    var host (codes "UWUU_SMTP_USER") >>= λ user. var host (codes "UWUU_SMTP_PASS") >>= λ pass.
    var host (codes "UWUU_SMTP_FROM") >>= λ from.
    flag host (codes "UWUU_SMTP_STARTTLS") true >>= λ starttls.
    if is_some smtp_host && not (is_some from)
    then err (missing (codes "UWUU_SMTP_FROM"))
    else ok (record {
      smtp_host = smtp_host;
      smtp_port = port;
      smtp_user = user;
      smtp_pass = pass;
      smtp_from = from;
      smtp_starttls = starttls;
    })

abbrev pub key_of : Host → Option Text → Loaded (Option Bytes)
key_of host none = ok none
key_of host (some raw) = elim (parse_key host.hex_decode raw) [
  | err detail ↦ err (invalid (codes "UWUU_STORAGE_ENCRYPTION_KEY") detail)
  | ok key ↦ ok (some key)
]

-- `while u.ends_with('/') { u.pop(); }`, on the characters from the end
abbrev pub drop_slashes : Text → Text
drop_slashes [] = []
drop_slashes (c ∷ s) = elim (c == b'/') [ true ↦ drop_slashes s | false ↦ c ∷ s ]

unfoldable pub base_url_of : ℕ → Option Text → Text
base_url_of port none = codes "http://127.0.0.1:" ++ show port
base_url_of port (some u) = reverse (drop_slashes (reverse u))

pub record Env : Type 0 where
  pub database_url : Text
  pub port : ℕ
  pub session_secret : Bytes
  pub storage_backend : StorageBackend
  pub local_dir : Text
  pub s3 : S3Settings
  pub storage_encryption_key : Option Bytes
  pub oidc : OidcSettings
  pub base_url : Text
  pub smtp : SmtpSettings
  pub scan_command : Option Text
  pub scan_timeout_secs : ℕ
  pub scan_fail_open : Bool
  pub otel_endpoint : Option Text

unfoldable pub load : Host → Loaded Env
load host = required host (codes "UWUU_DATABASE_URL") >>= λ database_url.
    number host (2 ^ 16) (codes "UWUU_PORT") 3000 >>= λ port.
    required host (codes "UWUU_SESSION_SECRET") >>= session_secret_of host >>= λ secret.
    var host (codes "UWUU_STORAGE_BACKEND") >>= storage_backend_of host >>= λ backend.
    var host (codes "UWUU_LOCAL_DIR") >>= λ local_dir. load_s3 host backend >>= λ s3_settings.
    var host (codes "UWUU_STORAGE_ENCRYPTION_KEY") >>= key_of host >>= λ key.
    load_oidc host >>= λ oidc_settings. var host (codes "UWUU_BASE_URL") >>= λ base_url.
    load_smtp host >>= λ smtp_settings. var host (codes "UWUU_SCAN_COMMAND") >>= λ scan_command.
    number host (2 ^ 64) (codes "UWUU_SCAN_TIMEOUT_SECS") 30 >>= λ timeout.
    flag host (codes "UWUU_SCAN_FAIL_OPEN") false >>= λ fail_open.
    var host (codes "UWUU_OTEL_ENDPOINT") >>= λ otel_endpoint. ok (record {
      database_url = database_url;
      port = port;
      session_secret = secret;
      storage_backend = backend;
      local_dir = unwrap_or local_dir (codes "./data");
      s3 = s3_settings;
      storage_encryption_key = key;
      oidc = oidc_settings;
      base_url = base_url_of port base_url;
      smtp = smtp_settings;
      scan_command = scan_command;
      scan_timeout_secs = timeout;
      scan_fail_open = fail_open;
      otel_endpoint = otel_endpoint;
    })
