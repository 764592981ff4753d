-- ===== src/Accounts/Auth.antt =====
-- src/auth.rs: usernames, tokens and their hashes. SHA-256 in hexadecimal is a parameter, and so is
-- `to_lowercase`; Argon2 is the record `Argon2`.
use mathlib.Core.List.{reverse}
use uwuubox.Prelude.{
  ℕ, Option, Bool, List, Bytes, Result, ok, err, guard, [], ◌∷◌, ◌++◌, none, some, bytes_eq,
  if◌then◌else◌, codes, map, any, all, leb, ltb, ◌&&◌, ◌||◌, ◌==◌, ◌>>◌, length, take, drop, not,
}
use uwuubox.Text.{Text, len, is_ascii_lowercase, is_ascii_digit, is_ascii_uppercase, starts_with}
use uwuubox.Ids.{nth}

abbrev pub token_alphabet : Text
token_alphabet = codes "ABCDEFGHIJKLMNOPQRSTUVWXYZabcdefghijklmnopqrstuvwxyz0123456789"

-- `USERNAME_RESERVED`
abbrev pub username_reserved : List Text
username_reserved =
    codes "admin" ∷ codes "root" ∷ codes "system" ∷ codes "api" ∷ codes "support" ∷ []

-- Hashing with a salt, and checking a password against a stored hash that parses.
pub record Argon2 : Type 0 where
  pub hash_with : Bytes → Text → Result Text Text
  pub verify_with : Text → Text → Option Bool

unfoldable pub hash_password : Argon2 → Bytes → Text → Result Text Text
unfolding len
hash_password argon2 salt pw =
    if ltb (len pw) 8
    then err (codes "password must be at least 8 characters")
    else if ltb 72 (len pw)
    then err (codes "password must be at most 72 bytes")
    else argon2.hash_with salt pw

abbrev verified : Option Bool → Bool
verified none = Bool.false
verified (some same) = same

-- `verify_with` has nothing where the hash does not parse.
unfoldable pub verify_password : Argon2 → Text → Text → Bool
verify_password argon2 hash pw = verified (argon2.verify_with hash pw)

abbrev pub is_name_char : ℕ → Bool
is_name_char c = is_ascii_lowercase c || is_ascii_digit c || (c == b'_')

abbrev pub is_username_reserved : Text → Bool
is_username_reserved name = any (bytes_eq name) username_reserved

-- The bytes of a name are its characters, or none is allowed: a character of two bytes or more is
-- above every allowed one, and so are its bytes.
unfoldable pub validate_username : Text → Result Text Text
unfolding len
validate_username name =
    guard (leb 3 (len name) && leb (len name) 24) (codes "username must be 3-24 characters")
    >> guard (all is_name_char name) (codes "username may only contain a-z, 0-9, _")
    >> guard (not (is_username_reserved name)) (codes "that username is reserved")
    >> ok name

abbrev pub name_char : ℕ → ℕ
name_char c = if is_name_char c then c else b'_'

-- `trim_start_matches('_')`
unfoldable pub trim_underscores : Text → Text
trim_underscores [] = []
trim_underscores (c ∷ s) = elim (c == b'_') [ Bool.true ↦ trim_underscores s | Bool.false ↦ c ∷ s ]

-- `trim_matches('_')`
unfoldable pub trim_matches : Text → Text
unfolding trim_underscores
trim_matches s = reverse (trim_underscores (reverse (trim_underscores s)))

abbrev pub padded : Text → Text
padded s = if ltb (length s) 3 then codes "user-" ++ s else s

abbrev pub unreserved : Text → Text
unreserved s = if is_username_reserved s then s ++ codes "_uwu" else s

-- Every character is one byte after the replacement, so `truncate` takes characters.
unfoldable pub oidc_base_username : (Text → Text) → Text → Text
unfolding trim_matches
oidc_base_username lower preferred =
    unreserved (padded (trim_matches (take 20 (map name_char (lower preferred)))))

-- The indices are those that the generator drew, each below 62.
unfoldable pub random_alnum : List ℕ → Text
random_alnum indices = map (nth token_alphabet) indices

unfoldable pub new_api_token : List ℕ → Text
unfolding random_alnum
new_api_token indices = codes "uwu_" ++ random_alnum indices

unfoldable pub new_delete_token : List ℕ → Text
unfolding random_alnum
new_delete_token indices = codes "uwu-del-" ++ random_alnum indices

unfoldable pub new_reset_token : List ℕ → Text
unfolding random_alnum
new_reset_token indices = codes "uwu-rst-" ++ random_alnum indices

module _ (sha256_hex : Bytes → Text) where
  -- The code points of a token stand for its UTF-8 bytes.
  unfoldable pub peppered_hash : Text → Bytes → Text → Text
  peppered_hash domain secret token = sha256_hex (domain ++ 0 ∷ (secret ++ 0 ∷ token))

  unfoldable pub api_token_hash : Bytes → Text → Text
  unfolding peppered_hash
  api_token_hash secret token = peppered_hash (codes "api-token-v1") secret token

  unfoldable pub delete_token_hash : Bytes → Text → Text
  unfolding peppered_hash
  delete_token_hash secret token = peppered_hash (codes "delete-token-v1") secret token

  unfoldable pub reset_token_hash : Bytes → Text → Text
  unfolding peppered_hash
  reset_token_hash secret token = peppered_hash (codes "reset-v1") secret token

unfoldable pub tokens_equal : Text → Text → Bool
tokens_equal a b = bytes_eq a b

abbrev pub is_alnum : ℕ → Bool
is_alnum c = is_ascii_uppercase c || is_ascii_lowercase c || is_ascii_digit c

unfoldable pub is_api_token_format : Text → Bool
unfolding len starts_with
is_api_token_format token =
    (len token == 36) && starts_with (codes "uwu_") token && all is_alnum (drop 4 token)
