-- ===== src/Files/Raw.antt =====
-- src/routes/files.rs: `raw`, the bytes of a file with its headers, and `thumb`. What the store hands
-- out is read off the bytes on disk by `view`; whether a text is a legal header value, and UTF-8
-- decoding, are parameters.
use uwuubox.Prelude.{
  ℕ, ◌+◌, ◌-◌, Option, Bool, Bytes, Result, ok, err, guard, [], ◌++◌, none, some, if◌then◌else◌,
  codes, not, ◌||◌, ◌>>=◌, ◌>>◌, length, slice, ◌==◌,
}
use uwuubox.Prelude.Int.{ℤ, pos, negsuc}
use uwuubox.Text.{Text, is_empty}
use uwuubox.Errors.{Fault, failed, aborted, bad_request, not_found, internal, stored}
use uwuubox.Ids.{strip_to_core, is_reserved}
use uwuubox.Mime.{should_inline, sanitize_filename}
use uwuubox.Range.{
  RangeOutcome, response, full, satisfiable, invalid, unsatisfiable, parse, Response,
  response_stream,
}
use uwuubox.ObjectCrypt.{Aead}
use uwuubox.Storage.{Store, Stream}
use uwuubox.Storage.Reading.{get_stream, get_range_stream, get, collect}
use uwuubox.Accounts.Auth.{Argon2}
use uwuubox.Files.Rows.{FileRow, World, Disk, Erase, Outcome, remove_file, find_file, is_expired}
use uwuubox.Files.Access.{load_live_file, password_check, Session, found_or_404}

-- The headers that depend on the row.
pub record Headers : Type 0 where
  pub content_type : Text
  pub cache_control : Text
  pub content_disposition : Option Text

-- A body in memory, or one that is streamed.
pub data Body : Type 0 where
  buffered : Bytes → Body
  streamed : Stream → Body

abbrev pub Answer : Type 0
Answer = Response Body × Headers

-- What a request brings; the header `Range` is `some none` where it is no text.
pub record RawRequest : Type 0 where
  pub segment : Text
  pub password : Option Text
  pub range : Option (Option Text)
  pub session : Session

abbrev pub is_protected : FileRow → Bool
is_protected row = elim row.access_password_hash [ none ↦ Bool.false | some hash ↦ Bool.true ]

unfoldable pub cache_control_of : FileRow → Text
cache_control_of row =
    if row.burn_after_read || is_protected row
    then codes "private, no-store"
    else codes "public, max-age=86400"

abbrev pub attachment : Text → Text
attachment name = codes "attachment; filename=\"" ++ name ++ codes "\""

-- The text of the header, and the length of the file.
abbrev pub range_text : Option (Option Text) → Result Fault (Option Text)
range_text none = ok none
range_text (some none) = err (failed (bad_request (codes "invalid Range header")))
range_text (some (some value)) = ok (some value)

abbrev pub length_of : ℤ → Result Fault ℕ
length_of (pos n) = ok n
length_of (negsuc n) = err (failed (internal (codes "negative stored file size")))

abbrev pub body_of : RangeOutcome → Bytes → Bytes
body_of (satisfiable start end) all = slice start (end + 1) all
body_of full all = all
body_of invalid all = all
body_of unsatisfiable all = all

-- The row, its length and the range that is asked for.
abbrev pub Admitted : Type 0
Admitted = FileRow × ℕ × RangeOutcome

module _ (from_utf8 : Bytes → Option Text) (valid_header : Text → Bool) where
  abbrev pub header : Text → Text → Result Fault Text
  header value message = if valid_header value then ok value else err (failed (internal message))

  abbrev pub disposition : Option Text → Result Fault (Option Text)
  disposition none = err aborted
  disposition (some name) = do
    value ← header (attachment name) (codes "bad filename")
    ok (some value)

  unfoldable pub download_headers : FileRow → Result Fault Headers
  unfolding should_inline sanitize_filename cache_control_of
  download_headers row =
      let inline = should_inline from_utf8 row.mime_stored [] in
      do
        content_type ←
            header (if inline then row.mime_stored else codes "application/octet-stream")
              (codes "bad stored mime")
        content_disposition ←
            (if inline then ok none else disposition (sanitize_filename row.original_name))
        ok (record {
          content_type = content_type;
          cache_control = cache_control_of row;
          content_disposition = content_disposition;
        })

  -- `raw_response`
  unfoldable pub raw_response : FileRow → RangeOutcome → ℕ → Bytes → Result Fault Answer
  unfolding download_headers response_stream
  raw_response row outcome full_len bytes = do
    headers ← download_headers row
    ok (response_stream (buffered []) outcome full_len (length bytes) (buffered bytes), headers)

  unfoldable pub raw_response_stream : FileRow → RangeOutcome → ℕ → ℕ → Stream → Result Fault Answer
  unfolding download_headers response_stream
  raw_response_stream row outcome full_len content_len body = do
    headers ← download_headers row
    ok (response_stream (buffered []) outcome full_len content_len (streamed body), headers)

  module _ (a : Aead) (view : Disk → Store) (erase : Erase) where
    abbrev pub after_removal : FileRow → RangeOutcome → ℕ → Bytes → Outcome Bool → Outcome Answer
    after_removal row outcome full_len all (err fault, w) = (err fault, w)
    after_removal row outcome full_len all (ok Bool.false, w) = (err (failed not_found), w)
    after_removal row outcome full_len all (ok Bool.true, w) =
        (raw_response row outcome full_len (body_of outcome all), w)

    -- `get_stream` and `collect_stream`
    abbrev pub read_all : World → FileRow → ℕ → Result Fault Bytes
    read_all w row full_len = do
      s ← stored (get_stream a (view w.disk) row.storage_key full_len)
      stored (collect s)

    -- Everything is read before the row is removed, and has the length of the row.
    unfoldable pub collect_all : World → FileRow → ℕ → Result Fault Bytes
    unfolding get_stream collect
    collect_all w row full_len = do
      all ← read_all w row full_len
      guard (length all == full_len) (failed (internal (codes "stored object size mismatch")))
          >> ok all

    -- The removal of the row, and the answer of the request that removed it.
    unfoldable pub take_once : World → FileRow → RangeOutcome → ℕ → Bytes → Outcome Answer
    unfolding remove_file raw_response
    take_once w row outcome full_len all =
        after_removal row outcome full_len all (remove_file erase row.id_core w)

    abbrev pub burn_with : World → FileRow → RangeOutcome → ℕ → Result Fault Bytes → Outcome Answer
    burn_with w row outcome full_len (err fault) = (err fault, w)
    burn_with w row outcome full_len (ok all) = take_once w row outcome full_len all

    unfoldable pub burn : World → FileRow → RangeOutcome → ℕ → Outcome Answer
    unfolding collect_all take_once
    burn w row outcome full_len = burn_with w row outcome full_len (collect_all w row full_len)

    unfoldable pub serve : World → FileRow → RangeOutcome → ℕ → Result Fault Answer
    unfolding get_stream get_range_stream raw_response_stream
    serve w row full full_len = do
      s ← stored (get_stream a (view w.disk) row.storage_key full_len)
      raw_response_stream row full full_len full_len s
    serve w row (satisfiable start end) full_len = do
      s ← stored (get_range_stream a (view w.disk) row.storage_key start (end - start + 1))
      raw_response_stream row (satisfiable start end) full_len (end - start + 1) s
    serve w row invalid full_len = err aborted
    serve w row unsatisfiable full_len = err aborted

    abbrev pub raw_found : World → FileRow → ℕ → RangeOutcome → Outcome Answer
    raw_found w row full_len invalid =
        (err (failed (bad_request (codes "invalid Range header"))), w)
    raw_found w row full_len unsatisfiable = (raw_response row unsatisfiable full_len [], w)
    raw_found w row full_len full =
        if row.burn_after_read then burn w row full full_len else (serve w row full full_len, w)
    raw_found w row full_len (satisfiable start end) =
        if row.burn_after_read
        then burn w row (satisfiable start end) full_len
        else (serve w row (satisfiable start end) full_len, w)

    unfoldable pub admit : Argon2 → ℕ → World → RawRequest → Result Fault Admitted
    unfolding load_live_file password_check parse
    admit argon2 now w request = do
      row ← load_live_file now w.files request.segment
      password_check argon2 request.session request.password row
          >> (range_text request.range >>= λ value.
              length_of row.size_bytes >>= λ full_len. ok (row, full_len, parse value full_len))

    abbrev pub raw_admitted : World → Result Fault Admitted → Outcome Answer
    raw_admitted w (err fault) = (err fault, w)
    raw_admitted w (ok (row, full_len, outcome)) = raw_found w row full_len outcome

    -- The handler `raw`.
    unfoldable pub raw : Argon2 → ℕ → World → RawRequest → Outcome Answer
    unfolding admit burn serve raw_response
    raw argon2 now w request = raw_admitted w (admit argon2 now w request)

    abbrev pub shows_thumb : ℕ → FileRow → Bool
    shows_thumb now row =
        not (is_expired now row.expires_at || row.burn_after_read || is_protected row)

    abbrev pub thumb_key_of : FileRow → Result Fault Text
    thumb_key_of row = elim row.thumb_key [ none ↦ err (failed not_found) | some key ↦ ok key ]

    abbrev pub thumb_headers : Headers
    thumb_headers = record {
      content_type = codes "image/jpeg";
      cache_control = codes "public, max-age=31536000, immutable";
      content_disposition = none;
    }

    -- The handler `thumb`: the picture, whole.
    unfoldable pub thumb : ℕ → World → Text → Result Fault (Response Bytes × Headers)
    unfolding strip_to_core is_reserved find_file is_expired get response
    thumb now w segment =
        if is_empty (strip_to_core segment) || is_reserved (strip_to_core segment)
        then err (failed not_found)
        else (do
          row ← found_or_404 (find_file (strip_to_core segment) w.files)
          guard (shows_thumb now row) (failed not_found)
          key ← thumb_key_of row
          bytes ← stored (get a (view w.disk) key)
          ok (response full (length bytes) bytes, thumb_headers))
