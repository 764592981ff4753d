-- ===== src/Ids.antt =====
-- src/ids.rs: content ids, extensions, reserved words, and the lifetime that a caller asks for.
pub mod Expiry
pub mod Names
mod Examples
use uwuubox.Prelude.{
  ℕ, Bool, ◌∷◌, Bytes, List, if◌then◌else◌, Option, Result, codes, none, any, map, [], ok, leb,
  some, suc, err, ◌==◌, bytes_eq, ◌+◌, ◌&&◌, ◌>>=◌, ◌||◌, zero, ◌%◌, all, take,
}
use uwuubox.Prelude.Int.{ℤ, pos, negsuc, ltb_ℤ}
use uwuubox.Text.{
  Text, trim, len, parse_i64, is_ascii_uppercase, is_ascii_lowercase, is_empty, is_ascii_digit,
}

abbrev pub id_len : ℕ
id_len = 8

abbrev pub alphabet : Text
alphabet = codes "abcdefghijkmnpqrstuvwxyz23456789"

-- `RESERVED`
abbrev pub reserved : List Text
reserved = map codes (
    "f" ∷ "p" ∷ "u" ∷ "api" ∷ "admin" ∷ "login" ∷ "register" ∷ "logout" ∷ "oidc" ∷ "static"
    ∷ "health" ∷ "config" ∷ [])

abbrev pub nth : Text → ℕ → ℕ
nth [] n = 0
nth (c ∷ s) zero = c
nth (c ∷ s) (suc n) = nth s n

-- `generate_core` over the random bytes of its buffer: the low five bits of each pick a character.
unfoldable pub generate_core : Bytes → Text
generate_core buf = map (λ b. nth alphabet (b % 32)) (take id_len buf)

-- `rsplit(['/', '\\']).next()`: what stands behind the last separator.
unfoldable pub base_name : Text → Text
base_name [] = []
base_name (c ∷ s) = if any (λ d. (d == b'/') || (d == b'\\')) (c ∷ s) then base_name s else c ∷ s

-- From the last dot on, if there is one.
unfoldable pub from_last_dot : Text → Option Text
from_last_dot [] = none
from_last_dot (c ∷ s) =
    let rest = from_last_dot s in
    elim rest [ some t ↦ some t | none ↦ if c == b'.' then some (c ∷ s) else none ]

-- The last dot, unless it begins the name.
unfoldable pub dot_suffix : Text → Option Text
unfolding from_last_dot
dot_suffix [] = none
dot_suffix (c ∷ s) = from_last_dot s

abbrev pub is_ext_char : ℕ → Bool
is_ext_char c = is_ascii_lowercase c || is_ascii_digit c || (c == b'.')

abbrev pub kept_ext : Text → Text
kept_ext ext = if leb 2 (len ext) && leb (len ext) 10 && all is_ext_char ext then ext else []

abbrev pub lowered_ext : (Text → Text) → Option Text → Text
lowered_ext lower none = []
lowered_ext lower (some ext) = kept_ext (lower ext)

-- `str::to_lowercase` is a parameter.
unfoldable pub normalize_ext : (Text → Text) → Text → Text
unfolding base_name dot_suffix len
normalize_ext lower original_name = lowered_ext lower (dot_suffix (base_name original_name))

unfoldable pub strip_to_core : Text → Text
strip_to_core [] = []
strip_to_core (c ∷ s) = if c == b'.' then [] else c ∷ strip_to_core s

unfoldable pub is_reserved : Text → Bool
is_reserved word = any (bytes_eq word) reserved

pub data ExpiryRequest : Type 0 where
  default : ExpiryRequest
  never : ExpiryRequest
  in_secs : ℤ → ExpiryRequest

-- `eq_ignore_ascii_case` with a lower-case word
abbrev pub ascii_lower : ℕ → ℕ
ascii_lower c = if is_ascii_uppercase c then c + 32 else c

abbrev pub parsed_secs : Option ℤ → Result Unit ExpiryRequest
parsed_secs none = err tt
parsed_secs (some secs) = ok (in_secs secs)

unfoldable pub parse_expiry_param : Option Text → Result Unit ExpiryRequest
unfolding trim parse_i64
parse_expiry_param none = ok default
parse_expiry_param (some s) =
    if is_empty (trim s)
    then ok default
    else if bytes_eq (map ascii_lower (trim s)) (codes "never") || bytes_eq (trim s) (codes "0")
    then ok never
    else parsed_secs (parse_i64 (trim s))

-- The values of serde_json that `parse_expiry_json` tells apart; a number is its `as_i64`.
pub data Value : Type 0 where
  null : Value
  number : Option ℤ → Value
  string : Text → Value
  other : Value

unfoldable pub parse_expiry_json : Option Value → Result Unit ExpiryRequest
unfolding parse_expiry_param
parse_expiry_json none = ok default
parse_expiry_json (some null) = ok default
parse_expiry_json (some (number none)) = err tt
parse_expiry_json (some (number (some secs))) =
    if ltb_ℤ (pos 0) secs then ok (in_secs secs) else ok never
parse_expiry_json (some (string s)) = parse_expiry_param (some s)
parse_expiry_json (some other) = err tt

-- The `Err(())` of `clamp_expiry`, and the panic of `Ord::clamp` where the bounds are crossed.
pub data ClampError : Type 0 where
  refused : ClampError
  crossed : ClampError

-- `Ord::clamp`
unfoldable pub clamp : ℤ → ℤ → ℤ → Result ClampError ℤ
clamp secs min_secs max_secs =
    if ltb_ℤ max_secs min_secs
    then err crossed
    else if ltb_ℤ secs min_secs
    then ok min_secs
    else if ltb_ℤ max_secs secs
    then ok max_secs
    else ok secs

unfoldable pub clamp_expiry : ExpiryRequest → ℤ → ℤ → ℤ → Bool → Result ClampError (Option ℤ)
unfolding clamp
clamp_expiry default min_secs default_secs max_secs allow_never = ok (some default_secs)
clamp_expiry never min_secs default_secs max_secs allow_never =
    if allow_never then ok none else err refused
clamp_expiry (in_secs secs) min_secs default_secs max_secs allow_never =
    clamp secs min_secs max_secs >>= λ secs. ok (some secs)
