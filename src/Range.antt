-- ===== src/Range.antt =====
-- src/range.rs: parsing a `Range` header of one range, and the head of the response.
pub mod Bounds
pub mod Requests
mod Examples
use uwuubox.Text.{
  Text, trim, split_once, is_empty, is_whitespace, strip_prefix, contains_char, show,
  is_ascii_digit, parse_u64,
}
use uwuubox.Prelude.{
  ℕ, ◌+◌, ◌-◌, Option, codes, Bytes, none, [], some, if◌then◌else◌, length, ◌==◌, ltb, ◌||◌, leb,
  min, ◌++◌, not, ◌&&◌, any, all,
}

pub data RangeOutcome : Type 0 where
  full : RangeOutcome
  satisfiable : ℕ → ℕ → RangeOutcome
  invalid : RangeOutcome
  unsatisfiable : RangeOutcome

-- A `u64` of decimal digits alone: no sign.
unfoldable pub decimal : Text → Option ℕ
decimal value = if not (is_empty value) && all is_ascii_digit value then parse_u64 value else none

-- `bytes=-n`: the last `n` bytes.
unfoldable pub suffix_range : Option ℕ → ℕ → RangeOutcome
suffix_range none len = invalid
suffix_range (some suffix_len) len =
    if (suffix_len == 0) || (len == 0)
    then unsatisfiable
    else satisfiable (len - suffix_len) (len - 1)

abbrev pub not_before : ℕ → Option ℕ → Option (Option ℕ)
not_before start none = none
not_before start (some end) = if ltb end start then none else some (some end)

-- The end asked for, if any; nothing at all if it is malformed or before the start.
unfoldable pub requested_end : ℕ → Text → Option (Option ℕ)
requested_end start last = if is_empty last then some none else not_before start (decimal last)

abbrev pub unwrap_or : Option ℕ → ℕ → ℕ
unwrap_or none d = d
unwrap_or (some n) d = n

unfoldable pub closed_range : ℕ → Option (Option ℕ) → ℕ → RangeOutcome
closed_range start none len = invalid
closed_range start (some requested) len =
    if (len == 0) || leb len start
    then unsatisfiable
    else satisfiable start (min (unwrap_or requested (len - 1)) (len - 1))

abbrev pub open_range : Option ℕ → Text → ℕ → RangeOutcome
open_range none last len = invalid
open_range (some start) last len = closed_range start (requested_end start last) len

unfoldable pub parse_parts : Option (Text × Text) → ℕ → RangeOutcome
unfolding suffix_range requested_end closed_range
parse_parts none len = invalid
parse_parts (some (first, last)) len =
    if is_empty first then suffix_range (decimal last) len else open_range (decimal first) last len

unfoldable pub parse_spec : Option Text → ℕ → RangeOutcome
unfolding parse_parts split_once is_whitespace
parse_spec none len = invalid
parse_spec (some spec) len =
    if is_empty spec || contains_char b',' spec || any is_whitespace spec
    then invalid
    else parse_parts (split_once b'-' spec) len

unfoldable pub parse : Option Text → ℕ → RangeOutcome
unfolding parse_spec trim strip_prefix decimal
parse none len = full
parse (some header) len = parse_spec (strip_prefix (codes "bytes=") (trim header)) len

-- The status, the headers of the range, and the body of a response.
pub record Response {ℓ} (Body : Type ℓ) : Type ℓ where
  pub status : ℕ
  pub accept_ranges : Text
  pub content_range : Option Text
  pub content_length : ℕ
  pub body : Body

unfoldable pub content_range_of : ℕ → ℕ → ℕ → Text
content_range_of start end full_len =
    codes "bytes " ++ show start ++ codes "-" ++ show end ++ codes "/" ++ show full_len

unfoldable pub unsatisfied_range_of : ℕ → Text
unsatisfied_range_of full_len = codes "bytes */" ++ show full_len

-- `response_stream`, for any kind of body and its empty value.
unfoldable pub response_stream {ℓ} : {B : Type ℓ} → B → RangeOutcome → ℕ → ℕ → B → Response B
unfolding content_range_of unsatisfied_range_of
response_stream nothing full full_len content_len body = record {
  status = 200;
  accept_ranges = codes "bytes";
  content_range = none;
  content_length = content_len;
  body = body;
}
response_stream nothing (satisfiable start end) full_len content_len body = record {
  status = 206;
  accept_ranges = codes "bytes";
  content_range = some (content_range_of start end full_len);
  content_length = content_len;
  body = body;
}
response_stream nothing invalid full_len content_len body = record {
  status = 400;
  accept_ranges = codes "bytes";
  content_range = none;
  content_length = 0;
  body = nothing;
}
response_stream nothing unsatisfiable full_len content_len body = record {
  status = 416;
  accept_ranges = codes "bytes";
  content_range = some (unsatisfied_range_of full_len);
  content_length = 0;
  body = nothing;
}

-- `response`: the same over a buffered body, whose length is the content length.
unfoldable pub response : RangeOutcome → ℕ → Bytes → Response Bytes
unfolding response_stream
response outcome full_len body = response_stream [] outcome full_len (length body) body
