-- ===== src/Config/Environment/Complete.antt =====
-- Proofs about `Env::load`: what the settings that it returns fulfil.
use uwuubox.Text.{trim, Text}
use uwuubox.ObjectCrypt.{parse_key, checked_key}
use uwuubox.Prelude.{
  List, [], ◌∷◌, ok, err, ◌≡◌, refl, All, subst, none, ◌>>=◌, Result-cases, inl, Bool-cases, inr,
  if◌then◌else◌, ◌^◌, ◌==◌, arith, ◌&&◌, ◌||◌,
}
use uwuubox.Config.Environment.{
  Host, load_s3, all_set, S3Settings, Loaded, StorageBackend, is_s3, is_some, s3_credentials,
  checked, Option, true, some, var, codes, flag, Result, load, load_oidc, key_of, Env, load_smtp,
  SmtpSettings, Bool, Bytes, session_secret_of, required, number, length, oidc_credentials,
  OidcSettings, secret_of, false, storage_backend_of, not, missing,
}

-- Every one of the settings is there.
pub AllSet : List (Text × Option Text) → Type 0
AllSet settings = All (λ s. is_some s.1 ≡ true) settings

all_set_sound :
    (settings : List (Text × Option Text)) → all_set true settings ≡ ok tt → AllSet settings
unfolding all_set AllSet
all_set_sound [] h = tt
all_set_sound ((name, some v) ∷ settings) h = (refl, all_set_sound settings h)
all_set_sound ((name, none) ∷ settings) h = cc

-- What holds of the value of a load that succeeds.
pub Ok : {A : Type 0} → (A → Type 0) → Loaded A → Type 0
Ok P (ok a) = P a
Ok P (err e) = Unit

-- It is enough that it holds after the first step, whatever that answers.
>>=-Ok :
    {A B : Type 0} (P : B → Type 0) (m : Loaded A) (f : A → Loaded B)
    → ((a : A) → Ok P (f a))
    → Ok P (m >>= f)
unfolding Ok
>>=-Ok P (ok a) f h = h a
>>=-Ok P (err e) f h = tt

-- A first step of which something is known.
>>=-Ok_of :
    {A B : Type 0} (Q : A → Type 0) (P : B → Type 0) (m : Loaded A) (f : A → Loaded B)
    → Ok Q m
    → ((a : A) → Q a → Ok P (f a))
    → Ok P (m >>= f)
unfolding Ok
>>=-Ok_of Q P (ok a) f q h = h a q
>>=-Ok_of Q P (err e) f q h = tt

-- All settings are there, if something is on.
pub WhenOn : Bool → List (Text × Option Text) → Type 0
WhenOn false settings = Unit
WhenOn true settings = AllSet settings

all_set-on :
    (on : Bool) (settings : List (Text × Option Text))
    → all_set on settings ≡ ok tt
    → WhenOn on settings
unfolding WhenOn
all_set-on false settings h = tt
all_set-on true settings h = all_set_sound settings h

checked-Ok :
    {A : Type 0} (P : A → Type 0) (m : Loaded (Unit {0})) (a : A)
    → (m ≡ ok tt → P a)
    → Ok P (checked m a)
unfolding Ok
checked-Ok P (ok tt) a h = h refl
checked-Ok P (err e) a h = tt

load_s3-Ok :
    (host : Host) (backend : StorageBackend)
    → Ok (λ s. WhenOn (is_s3 backend) (s3_credentials s)) (load_s3 host backend)
unfolding load_s3
load_s3-Ok host backend =
    let P : S3Settings → Type 0 = λ s. WhenOn (is_s3 backend) (s3_credentials s) in
    >>=-Ok P (var host (codes "UWUU_S3_ENDPOINT")) _ λ endpoint.
      >>=-Ok P (var host (codes "UWUU_S3_BUCKET")) _ λ bucket.
        >>=-Ok P (var host (codes "UWUU_S3_REGION")) _ λ region.
          >>=-Ok P (var host (codes "UWUU_S3_ACCESS_KEY")) _ λ access_key.
            >>=-Ok P (var host (codes "UWUU_S3_SECRET_KEY")) _ λ secret_key.
              >>=-Ok P (flag host (codes "UWUU_S3_PATH_STYLE") true) _
                λ path_style. checked-Ok P _ _ (all_set-on (is_s3 backend) _)

load_oidc-Ok : (host : Host) → Ok (λ s. WhenOn s.oidc_enabled (oidc_credentials s)) (load_oidc host)
unfolding load_oidc
load_oidc-Ok host =
    let P : OidcSettings → Type 0 = λ s. WhenOn s.oidc_enabled (oidc_credentials s) in
    >>=-Ok P (flag host (codes "UWUU_OIDC_ENABLED") false) _ λ enabled.
      >>=-Ok P (var host (codes "UWUU_OIDC_DISCOVERY_URL")) _ λ discovery_url.
        >>=-Ok P (var host (codes "UWUU_OIDC_CLIENT_ID")) _ λ client_id.
          >>=-Ok P (var host (codes "UWUU_OIDC_CLIENT_SECRET")) _ λ client_secret.
            >>=-Ok P (var host (codes "UWUU_OIDC_REDIRECT_URL")) _
              λ redirect_url. checked-Ok P _ _ (all_set-on enabled _)

-- A mail host comes with a sender.
abbrev pub HasSender : SmtpSettings → Type 0
HasSender s = (not (is_some s.smtp_host) || is_some s.smtp_from) ≡ true

sender-Ok :
    (s : SmtpSettings)
    → Ok HasSender (
        if is_some s.smtp_host && not (is_some s.smtp_from)
        then err (missing (codes "UWUU_SMTP_FROM"))
        else ok s)
unfolding Ok
sender-Ok s = elim (Bool-cases (is_some s.smtp_from)) [
  | inl given ↦ elim (Bool-cases (is_some s.smtp_host)) [
    | inl on ↦ rw (given, on, given, on) refl
    | inr off ↦ rw (given, off, given, off) refl
  ]
  | inr missed ↦ elim (Bool-cases (is_some s.smtp_host)) [
    | inl on ↦ rw (missed, on) tt
    | inr off ↦ rw (missed, off, off) refl
  ]
]

load_smtp-Ok : (host : Host) → Ok HasSender (load_smtp host)
unfolding load_smtp
load_smtp-Ok host = >>=-Ok HasSender (var host (codes "UWUU_SMTP_HOST")) _ λ smtp_host.
    >>=-Ok HasSender (number host (2 ^ 16) (codes "UWUU_SMTP_PORT") 587) _ λ port.
      >>=-Ok HasSender (var host (codes "UWUU_SMTP_USER")) _ λ user.
        >>=-Ok HasSender (var host (codes "UWUU_SMTP_PASS")) _ λ pass.
          >>=-Ok HasSender (var host (codes "UWUU_SMTP_FROM")) _ λ from.
            >>=-Ok HasSender (flag host (codes "UWUU_SMTP_STARTTLS") true) _ λ starttls. sender-Ok _

secret_of-Ok : (r : Result Text Bytes) → Ok (λ bytes. length bytes ≡ 32) (secret_of r)
unfolding Ok
secret_of-Ok (err e) = tt
secret_of-Ok (ok bytes) = elim (Bool-cases (length bytes == 32)) [
  | inl right ↦ rw right (ground arith)
  | inr wrong ↦ rw wrong tt
]

session_secret_of-Ok :
    (host : Host) (hex : Text) → Ok (λ bytes. length bytes ≡ 32) (session_secret_of host hex)
unfolding session_secret_of
session_secret_of-Ok host hex = secret_of-Ok (host.hex_decode (trim hex))

-- The key, if there is one, has 32 bytes.
abbrev pub HasKeyLength : Option Bytes → Type 0
HasKeyLength none = Unit
HasKeyLength (some key) = length key ≡ 32

checked_key-length :
    (r : Result Text Bytes) {key : Bytes} → checked_key r ≡ ok key → length key ≡ 32
checked_key-length (err e) h = cc
checked_key-length (ok bytes) h = ground arith

parsed_key-length :
    (hex_decode : Text → Result Text Bytes) (raw : Text) {key : Bytes}
    → parse_key hex_decode raw ≡ ok key
    → length key ≡ 32
unfolding parse_key
parsed_key-length hex_decode raw h = checked_key-length (hex_decode (trim raw)) h

key_of-Ok : (host : Host) (raw : Option Text) → Ok HasKeyLength (key_of host raw)
unfolding Ok
key_of-Ok host none = tt
key_of-Ok host (some raw) = elim (Result-cases (parse_key host.hex_decode raw)) [
  | inl (key, e) ↦ rw (e, Ok) (parsed_key-length host.hex_decode raw e)
  | inr (message, e) ↦ rw (e, Ok) tt
]

-- What a loaded environment fulfils.
pub record IsComplete (env : Env) : Type 0 where
  pub secret : length env.session_secret ≡ 32
  pub credentials : WhenOn (is_s3 env.storage_backend) (s3_credentials env.s3)
  pub key : HasKeyLength env.storage_encryption_key
  pub identity : WhenOn env.oidc.oidc_enabled (oidc_credentials env.oidc)
  pub sender : HasSender env.smtp

complete : {env : Env} → IsComplete env → Ok IsComplete (ok env)
unfolding Ok
complete h = h

load-Ok : (host : Host) → Ok IsComplete (load host)
unfolding load
load-Ok host = >>=-Ok IsComplete (required host (codes "UWUU_DATABASE_URL")) _ λ database_url.
    >>=-Ok IsComplete (number host (2 ^ 16) (codes "UWUU_PORT") 3000) _ λ port.
      >>=-Ok_of (λ bytes. length bytes ≡ 32) IsComplete
        (required host (codes "UWUU_SESSION_SECRET") >>= session_secret_of host) _
        (>>=-Ok _ (required host (codes "UWUU_SESSION_SECRET")) _ (session_secret_of-Ok host))
        λ secret is_32.
          >>=-Ok IsComplete (var host (codes "UWUU_STORAGE_BACKEND") >>= storage_backend_of host) _
            λ backend. >>=-Ok IsComplete (var host (codes "UWUU_LOCAL_DIR")) _ λ local_dir.
              >>=-Ok_of (λ s. WhenOn (is_s3 backend) (s3_credentials s)) IsComplete
                (load_s3 host backend) _ (load_s3-Ok host backend)
                λ s3_settings have_s3.
                  >>=-Ok_of HasKeyLength IsComplete
                    (var host (codes "UWUU_STORAGE_ENCRYPTION_KEY") >>= key_of host) _
                    (>>=-Ok _ (var host (codes "UWUU_STORAGE_ENCRYPTION_KEY")) _ (key_of-Ok host))
                    λ key have_key.
                      >>=-Ok_of (λ s. WhenOn s.oidc_enabled (oidc_credentials s)) IsComplete
                        (load_oidc host) _ (load_oidc-Ok host)
                        λ oidc_settings have_oidc.
                          >>=-Ok IsComplete (var host (codes "UWUU_BASE_URL")) _ λ base_url.
                            >>=-Ok_of HasSender IsComplete (load_smtp host) _ (load_smtp-Ok host)
                              λ smtp_settings have_sender.
                                >>=-Ok IsComplete (var host (codes "UWUU_SCAN_COMMAND")) _
                                  λ scan_command.
                                    >>=-Ok IsComplete
                                      (number host (2 ^ 64) (codes "UWUU_SCAN_TIMEOUT_SECS") 30) _
                                      λ timeout.
                                        >>=-Ok IsComplete
                                          (flag host (codes "UWUU_SCAN_FAIL_OPEN") false) _
                                          λ fail_open.
                                            >>=-Ok IsComplete
                                              (var host (codes "UWUU_OTEL_ENDPOINT")) _
                                              λ otel_endpoint. complete (record {
                                                secret = is_32;
                                                credentials = have_s3;
                                                key = have_key;
                                                identity = have_oidc;
                                                sender = have_sender;
                                              })

-- If `Env::load` succeeds, the session secret has 32 bytes, as has the storage key if there is one;
-- an S3 backend comes with all four of its settings, an enabled OIDC login with all four of its
-- own, and a mail host with a sender.
pub load-IsComplete : (host : Host) (env : Env) → load host ≡ ok env → IsComplete env
unfolding Ok
load-IsComplete host env h = subst (Ok IsComplete) h (load-Ok host)
