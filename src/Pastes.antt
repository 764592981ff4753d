-- ===== src/Pastes.antt =====
-- src/routes/pastes.rs: the checks of a new paste. Detecting a language and the `{:?}` of a text are
-- parameters.
pub mod Checks
pub mod Reading
pub mod Burning
pub mod Changing
mod Examples
use uwuubox.Prelude.{
  ℕ, ◌+◌, ◌-◌, Option, Bool, List, Bytes, Result, ok, err, guard, [], ◌∷◌, ◌++◌, none, some,
  bytes_eq, if◌then◌else◌, codes, any, length, leb, ltb, not, ◌&&◌, ◌||◌, ◌>>=◌, ◌>>◌, slice,
}
use uwuubox.Prelude.Int.{ℤ, pos, negsuc, ltb_ℤ}
use uwuubox.Text.{Text, trim, trim_end, is_empty, len}
use uwuubox.Errors.{
  AppError, Fault, failed, aborted, bad_request, forbidden, too_large, unauthorized, not_found,
  internal,
}
use uwuubox.Ids.{
  ExpiryRequest, ClampError, refused, crossed, clamp_expiry, strip_to_core, is_reserved,
}
use uwuubox.Config.{InstanceConfig, allow_never}
use uwuubox.Roles.{EffectiveLimits}
use uwuubox.Accounts.{User}
use uwuubox.Accounts.Auth.{Argon2, hash_password, verify_password}
use uwuubox.Accounts.Access.{check_delete_access}
use uwuubox.Files.Rows.{is_expired}
use uwuubox.Files.Access.{Session, check_password, unlocked_at}

-- The columns of `pastes`.
pub record PasteRow : Type 0 where
  pub id_core : Text
  pub owner_id : Option Text
  pub title : Option Text
  pub body : Text
  pub language : Option Text
  pub format : Text
  pub visibility : Text
  pub burn_after_read : Bool
  pub access_password_hash : Option Text
  pub expires_at : Option ℕ
  pub delete_token_hash : Option Text
  pub created_at : ℕ

pub record PasteInput : Type 0 where
  pub title : Option Text
  pub body : Text
  pub language : Option Text
  pub format : Option Text
  pub visibility : Option Text
  pub expires_in_secs : ExpiryRequest
  pub burn_after_read : Bool
  pub access_password : Option Text

abbrev pub trimmed : Option Text → Text
trimmed none = []
trimmed (some s) = trim s

abbrev is_one : Text → List Text → Bool
is_one s words = any (bytes_eq s) words

-- `form_bool`; a missing value reads like an empty one.
unfoldable pub form_bool : Option Text → Text → Result AppError Bool
unfolding trim
form_bool value field =
    if is_empty (trimmed value)
      || is_one (trimmed value) (codes "0" ∷ codes "false" ∷ codes "off" ∷ codes "no" ∷ [])
    then ok Bool.false
    else if is_one (trimmed value) (codes "1" ∷ codes "true" ∷ codes "on" ∷ codes "yes" ∷ [])
    then ok Bool.true
    else err (bad_request (field ++ codes " must be a boolean"))

abbrev pub kept_title : Option Text → Option Text
kept_title none = none
kept_title (some s) = if is_empty (trim s) then none else some (trim s)

abbrev pub is_long_title : Option Text → Bool
is_long_title none = Bool.false
is_long_title (some s) = ltb 140 (length s)

abbrev pub format_of : Option Text → Result Fault Text
format_of format =
    if is_empty (trimmed format) || bytes_eq (trimmed format) (codes "code")
    then ok (codes "code")
    else if bytes_eq (trimmed format) (codes "markdown")
    then ok (codes "markdown")
    else err (failed (bad_request (codes "format must be code|markdown")))

module _ (quoted : Text → Text) where
  unfoldable pub visibility_of : Bool → Bool → Option Text → Result Fault Text
  unfolding trim
  visibility_of authed can_publish_public visibility =
      if is_empty (trimmed visibility) || bytes_eq (trimmed visibility) (codes "unlisted")
      then ok (codes "unlisted")
      else if bytes_eq (trimmed visibility) (codes "public")
      then (if authed && not can_publish_public
          then err (failed (forbidden (codes "your role cannot publish public pastes")))
          else ok (codes "public"))
      else err (failed (bad_request (codes "bad visibility: " ++ quoted (trimmed visibility))))

abbrev pub hashed : Result Text Text → Result Fault (Option Text)
hashed (ok hash) = ok (some hash)
hashed (err message) = err (failed (bad_request message))

-- The hash of the password, if one is asked for; its length is counted in characters here.
unfoldable pub access_hash : Argon2 → Bytes → Option Text → Result Fault (Option Text)
unfolding hash_password
access_hash argon2 salt none = ok none
access_hash argon2 salt (some []) = ok none
access_hash argon2 salt (some (c ∷ s)) =
    if leb 8 (length (c ∷ s)) && leb (length (c ∷ s)) 72
    then hashed (hash_password argon2 salt (c ∷ s))
    else err (failed (bad_request (codes "access_password must be 8-72 characters")))

abbrev pub granted : Result ClampError (Option ℤ) → Result Fault (Option ℤ)
granted (ok lifetime) = ok lifetime
granted (err refused) = err (failed (bad_request (codes "never expiry is not allowed here")))
granted (err crossed) = err aborted

-- The time of expiry, from now on; times do not go below zero, and have no end where chrono's do.
abbrev pub expiry_from : ℕ → Option ℤ → Option ℕ
expiry_from now none = none
expiry_from now (some (pos secs)) = some (now + secs)
expiry_from now (some (negsuc secs)) = some (now - (secs + 1))

-- Who asks, at what time, under which settings.
pub record Caller : Type 0 where
  pub user : Option User
  pub cfg : InstanceConfig
  pub limits : EffectiveLimits
  pub now : ℕ

abbrev pub is_authed : Option User → Bool
is_authed none = Bool.false
is_authed (some user) = Bool.true

abbrev pub id_of : Option User → Option Text
id_of none = none
id_of (some user) = some user.id

module _ (quoted : Text → Text) (detect : Option Text → Text → Option Text) (argon2 : Argon2)
    (salt : Bytes) where
  abbrev pub language_of : Text → PasteInput → Option Text
  language_of format input =
      if bytes_eq format (codes "code") then detect input.language input.body else none

  -- The row that passes the checks of `create_paste_inner`, without its core and its token.
  unfoldable pub check_paste : Caller → PasteInput → Result Fault PasteRow
  unfolding len visibility_of access_hash clamp_expiry allow_never trim
  check_paste caller input =
      guard (not (is_empty input.body)) (failed (bad_request (codes "empty paste")))
      >> (guard (not (ltb_ℤ caller.limits.max_paste_bytes (pos (len input.body))))
            (failed (too_large caller.limits.max_paste_bytes))
          >> (guard (not (is_long_title (kept_title input.title)))
                (failed (bad_request (codes "title must be <= 140 characters")))
              >> (format_of input.format >>= λ format.
                  visibility_of quoted (is_authed caller.user) caller.limits.can_publish_public
                    input.visibility
                  >>= λ visibility.
                      guard (not (input.burn_after_read && not caller.limits.can_burn)) (
                        failed (bad_request (codes "burn-after-read is not allowed for your role")))
                      >> (access_hash argon2 salt input.access_password >>= λ hash.
                          granted (
                            clamp_expiry input.expires_in_secs caller.limits.min_expiry_secs
                              caller.limits.default_expiry_secs caller.limits.max_expiry_secs
                              (allow_never caller.cfg (is_authed caller.user)))
                          >>= λ lifetime. ok (record {
                            id_core = [];
                            owner_id = id_of caller.user;
                            title = kept_title input.title;
                            body = input.body;
                            language = language_of format input;
                            format = format;
                            visibility = visibility;
                            burn_after_read = input.burn_after_read;
                            access_password_hash = hash;
                            expires_at = expiry_from caller.now lifetime;
                            delete_token_hash = none;
                            created_at = caller.now;
                          })))))
