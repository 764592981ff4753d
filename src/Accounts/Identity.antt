-- ===== src/Accounts/Identity.antt =====
-- src/identity.rs: the session first, a bearer token second.
use uwuubox.Prelude.{
  ℕ, Option, Bool, List, Bytes, Result, ok, guard, [], ◌∷◌, none, some, bytes_eq, if◌then◌else◌,
  codes, any, ltb, ◌&&◌, ok_or, ◌>>=◌, ◌>>◌,
}
use uwuubox.Text.{Text, strip_prefix, trim}
use uwuubox.Errors.{AppError, unauthorized, forbidden}
use uwuubox.Accounts.{User, find_user_by_id}
use uwuubox.Accounts.Auth.{api_token_hash, is_api_token_format}

-- `API_SCOPES`
abbrev pub api_scopes : List Text
api_scopes = codes "upload" ∷ codes "paste" ∷ codes "delete" ∷ codes "read" ∷ []

pub record Identity : Type 0 where
  pub user : User
  pub scopes : List Text

-- A row of `api_tokens`; `token_hash` is UNIQUE.
pub record ApiToken : Type 0 where
  pub user_id : Text
  pub token_hash : Text
  pub scopes : List Text
  pub expires_at : Option ℕ
  pub last_used_at : Option ℕ

-- `expires_at IS NULL OR expires_at > now()`
abbrev pub is_live : ℕ → Option ℕ → Bool
is_live now none = Bool.true
is_live now (some at) = ltb now at

-- `touch_token`
unfoldable pub touch_token : ℕ → Text → List ApiToken → List ApiToken
touch_token now hash [] = []
touch_token now hash (token ∷ tokens) =
    let rest = touch_token now hash tokens in
    if bytes_eq token.token_hash hash
    then record {
      user_id = token.user_id;
      token_hash = token.token_hash;
      scopes = token.scopes;
      expires_at = token.expires_at;
      last_used_at = some now;
    }
      ∷ rest
    else token ∷ rest

abbrev pub joined : ApiToken → Option User → Option Identity → Option Identity
joined token none rest = rest
joined token (some user) rest = some (record { user = user; scopes = token.scopes })

-- The row that the JOIN finds.
unfoldable pub find_identity : List User → ℕ → Text → List ApiToken → Option Identity
unfolding find_user_by_id
find_identity users now hash [] = none
find_identity users now hash (token ∷ tokens) =
    let rest = find_identity users now hash tokens in
    if bytes_eq token.token_hash hash && is_live now token.expires_at
    then joined token (find_user_by_id users token.user_id) rest
    else rest

-- The text of the header `Authorization`, if it is there and legible.
unfoldable pub bearer : Option Text → Option Text
unfolding strip_prefix trim
bearer none = none
bearer (some value) = elim (strip_prefix (codes "Bearer ") value) [
  | none ↦ none
  | some v ↦ some (trim v)
]

abbrev pub Lookup : Type 0
Lookup = Option Identity × List ApiToken

abbrev pub touched : ℕ → Text → List ApiToken → Option Identity → Lookup
touched now hash tokens none = (none, tokens)
touched now hash tokens (some identity) = (some identity, touch_token now hash tokens)

abbrev pub session_or_token : Option User → Lookup → List ApiToken → Lookup
session_or_token none by_token tokens = by_token
session_or_token (some user) by_token tokens =
    (some (record { user = user; scopes = api_scopes }), tokens)

abbrev pub user_of_identity : Option Identity → Option User
user_of_identity none = none
user_of_identity (some identity) = some identity.user

abbrev pub session_user_or_token :
    Option User → Lookup → List ApiToken → Option User × List ApiToken
session_user_or_token none (found, touched_tokens) tokens = (user_of_identity found, touched_tokens)
session_user_or_token (some user) by_token tokens = (some user, tokens)

-- What a request brings, and what the tables hold. `session_uid` is the id under `uid` in the
-- session, if there is one that parses.
module _ (sha256_hex : Bytes → Text) (users : List User) (now : ℕ) (secret : Bytes) where
  unfoldable pub session_user : Option Text → Option User
  unfolding find_user_by_id
  session_user none = none
  session_user (some id) = find_user_by_id users id

  unfoldable pub token_identity : List ApiToken → Option Text → Option Identity × List ApiToken
  unfolding is_api_token_format api_token_hash find_identity
  token_identity tokens none = (none, tokens)
  token_identity tokens (some token) =
      let hash = api_token_hash sha256_hex secret token in
      if is_api_token_format token
      then touched now hash tokens (find_identity users now hash tokens)
      else (none, tokens)

  unfoldable pub bearer_identity : List ApiToken → Option Text → Option Identity × List ApiToken
  unfolding bearer token_identity
  bearer_identity tokens authorization = token_identity tokens (bearer authorization)

  -- The identity, and the tokens with the one that was used marked.
  unfoldable pub current_identity :
      Option Text → List ApiToken → Option Text → Option Identity × List ApiToken
  unfolding session_user bearer_identity
  current_identity session_uid tokens authorization =
      session_or_token (session_user session_uid) (bearer_identity tokens authorization) tokens

  unfoldable pub current_user :
      Option Text → List ApiToken → Option Text → Option User × List ApiToken
  unfolding session_user bearer_identity
  current_user session_uid tokens authorization =
      session_user_or_token (session_user session_uid) (bearer_identity tokens authorization) tokens

unfoldable pub require_scope : Option Identity → Text → Result AppError Identity
require_scope found scope = do
  identity ← ok_or found unauthorized
  guard (any (bytes_eq scope) identity.scopes) (forbidden (codes "token lacks required scope"))
      >> ok identity
