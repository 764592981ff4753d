-- ===== src/Upload.antt =====
-- src/routes/upload.rs: the cap of a body, the spooling of the file field under it, and the checks of
-- the fields that come with it.
pub mod Caps
pub mod Commit
pub mod Sharing
pub mod Undoing
pub mod Storing
pub mod Cores
mod Examples
use uwuubox.Errors.{AppError, bad_request, too_large}
use uwuubox.Prelude.{
  ℕ, if◌then◌else◌, Result, Bytes, Bool, List, Option, ok, [], any, err, some, ltb, none, codes,
  bytes_eq, false, ◌++◌, ◌∷◌, ◌-◌, length, true,
}
use uwuubox.Prelude.Int.{ℤ, pos, negsuc, ltb_ℤ, ◌-ℤ◌, ◌+ℤ◌}
use uwuubox.Text.{Text, trim, i64_bound, is_empty}

abbrev pub min_ℤ : ℤ → ℤ → ℤ
min_ℤ a b = if ltb_ℤ b a then b else a

-- `saturating_sub`, `saturating_add` of `i64`
abbrev pub saturate : ℤ → ℤ
saturate (pos n) = if ltb n i64_bound then pos n else pos (i64_bound - 1)
saturate (negsuc n) = if ltb n i64_bound then negsuc n else negsuc (i64_bound - 1)

abbrev pub at_least_zero : ℤ → ℤ
at_least_zero (pos n) = pos n
at_least_zero (negsuc n) = pos 0

abbrev pub role_cap : Bool → ℤ → ℤ → ℤ
role_cap authed max_file_bytes anonymous_max_bytes =
    if authed then max_file_bytes else min_ℤ max_file_bytes anonymous_max_bytes

abbrev remaining_of : ℤ → ℤ → Result AppError (Option ℤ)
remaining_of quota used =
    if ltb_ℤ quota (saturate (used +ℤ pos 1))
    then err (too_large (at_least_zero (saturate (quota -ℤ used))))
    else ok (some (at_least_zero (saturate (quota -ℤ used))))

-- What is left of the quota of a user who has one.
unfoldable pub quota_remaining : Bool → Option ℤ → ℤ → Result AppError (Option ℤ)
unfolding ◌+ℤ◌ ◌-ℤ◌
quota_remaining false quota used = ok none
quota_remaining true none used = ok none
quota_remaining true (some quota) used = remaining_of quota used

abbrev pub stream_cap : Option ℤ → ℤ → ℤ
stream_cap none role_cap = role_cap
stream_cap (some remaining) role_cap = min_ℤ role_cap remaining

-- The chunks of a field; a failed read carries its error.
abbrev pub Field : Type 0
Field = List (Result Text Bytes)

abbrev pub cap_bytes : ℤ → ℕ
cap_bytes (pos n) = n
cap_bytes (negsuc n) = 0

-- The bytes on disk after the loop, which has written `spooled` before.
unfoldable pub spool_chunks : ℕ → Bytes → Field → Result AppError Bytes
spool_chunks cap spooled [] = ok spooled
spool_chunks cap spooled (err e ∷ chunks) = err (bad_request (codes "unreadable file field: " ++ e))
spool_chunks cap spooled (ok chunk ∷ chunks) =
    let rest = spool_chunks cap (spooled ++ chunk) chunks in
    if ltb (cap - length spooled) (length chunk) then err (too_large (pos cap)) else rest

-- `spool_file_field` over the bytes of the field; the temporary file is taken to be writable.
unfoldable pub spool_file_field : Field → ℤ → Result AppError Bytes
unfolding spool_chunks
spool_file_field field cap = spool_chunks (cap_bytes cap) [] field

abbrev one_of : Text → List Text → Bool
one_of s words = any (bytes_eq s) words

unfoldable pub parse_bool_field : Option Text → Bool → Text → Result AppError Bool
unfolding trim
parse_bool_field none default field = ok default
parse_bool_field (some raw) default field =
    if is_empty (trim raw)
    then ok default
    else if one_of (trim raw) (codes "1" ∷ codes "true" ∷ codes "yes" ∷ codes "on" ∷ [])
    then ok true
    else if one_of (trim raw) (codes "0" ∷ codes "false" ∷ codes "no" ∷ codes "off" ∷ [])
    then ok false
    else err (bad_request (field ++ codes " must be a boolean"))
