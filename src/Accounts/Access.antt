-- ===== src/Accounts/Access.antt =====
-- src/routes/common.rs: HTML or JSON, preview kinds, who may delete, and links to avatars.
use uwuubox.Prelude.{
  Option, Bool, Bytes, [], ◌∷◌, ◌++◌, none, some, bytes_eq, if◌then◌else◌, codes, any, ◌==◌, ◌||◌,
}
use uwuubox.Text.{Text, starts_with, contains_text, is_empty}
use uwuubox.Accounts.{User}
use uwuubox.Accounts.Auth.{delete_token_hash, tokens_equal}

-- Over the header `Accept`, if it is there and legible.
unfoldable pub wants_html : Option Text → Bool
unfolding contains_text
wants_html none = Bool.false
wants_html (some accept) = contains_text (codes "text/html") accept

unfoldable pub file_kind : Text → Text
unfolding starts_with
file_kind mime =
    if starts_with (codes "image/") mime
    then codes "image"
    else if starts_with (codes "video/") mime
    then codes "video"
    else if starts_with (codes "audio/") mime
    then codes "audio"
    else if bytes_eq mime (codes "text/plain")
    then codes "text"
    else codes "other"

abbrev pub is_owner : Option User → Option Text → Bool
is_owner none owner_id = Bool.false
is_owner (some user) none = Bool.false
is_owner (some user) (some owner_id) = bytes_eq user.id owner_id

abbrev pub token_matches : (Bytes → Text) → Bytes → Option Text → Option Text → Bool
token_matches sha256_hex secret none provided_token = Bool.false
token_matches sha256_hex secret (some stored_hash) none = Bool.false
token_matches sha256_hex secret (some stored_hash) (some provided_token) =
    tokens_equal (delete_token_hash sha256_hex secret provided_token) stored_hash

unfoldable pub check_delete_access :
    (Bytes → Text) → Option User → Option Text → Option Text → Bytes → Option Text → Bool
check_delete_access sha256_hex user owner_id stored_hash secret provided_token =
    is_owner user owner_id || token_matches sha256_hex secret stored_hash provided_token

-- `rsplit('/').next()`
unfoldable pub last_segment : Text → Text
last_segment [] = []
last_segment (c ∷ s) = if any (λ d. d == b'/') (c ∷ s) then last_segment s else c ∷ s

unfoldable pub avatar_url : Option Text → Option Text
unfolding last_segment contains_text
avatar_url none = none
avatar_url (some key) =
    let b = last_segment key in
    if is_empty b || contains_text (codes "..") b then none else some (codes "/a/" ++ b)
