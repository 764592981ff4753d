-- ===== src/Files/Serving.antt =====
-- Proofs about `raw` of src/routes/files.rs: what is sent is the range of the file that was asked for.
use uwuubox.Prelude.{
  none, some, codes, ◌++◌, ℕ, ◌+◌, ◌-◌, ◌≤◌, ◌≡◌, ◌∙◌, ap, refl, subst, Option, Bool, false, Bytes,
  ok, [], if_false, length, slice, arith, ◌>>=◌,
}
use uwuubox.Prelude.Int.{pos}
use uwuubox.Text.{Text, show}
use uwuubox.Errors.{stored}
use uwuubox.Range.{
  RangeOutcome, full, satisfiable, invalid, unsatisfiable, parse, response_stream, content_range_of,
}
use uwuubox.Range.Bounds.{IsSent, InObject, parse-InObject}
use uwuubox.ObjectCrypt.{Aead}
use uwuubox.Storage.{Store, Stream}
use uwuubox.Storage.Reading.{collect}
use uwuubox.Storage.Contract.{Holds}
use uwuubox.Accounts.Auth.{Argon2}
use uwuubox.Files.Rows.{FileRow, World, Disk, Erase}
use uwuubox.Files.Access.{load_live_file, password_check}
use uwuubox.Files.Raw.{
  RawRequest, Headers, buffered, streamed, Answer, download_headers, raw, serve, admit,
  raw_admitted, raw_found, raw_response_stream, range_text,
}

ends : (start end : ℕ) → start ≤ end → start + (end - start + 1) ≡ end + 1
ends start end p = omega arith

counted : (start end : ℕ) → start ≤ end → end - start + 1 ≡ end + 1 - start
counted start end p = omega arith

-- The answers that send what was asked for: the status, the three headers of the range, and a stream
-- that reads to exactly these bytes.
pub data Sends (file : Bytes) (headers : Headers) : RangeOutcome → Answer → Type 0 where
  all_of_it :
      (s : Stream)
      → collect s ≡ ok file
      → Sends file headers full (
        record {
          status = 200;
          accept_ranges = codes "bytes";
          content_range = none;
          content_length = length file;
          body = streamed s;
        },
        headers,
      )
  a_part :
      (start end : ℕ) (s : Stream)
      → collect s ≡ ok (slice start (end + 1) file)
      → Sends file headers (satisfiable start end) (
        record {
          status = 206;
          accept_ranges = codes "bytes";
          content_range = some (
              codes "bytes "
              ++ show start
              ++ codes "-"
              ++ show end
              ++ codes "/"
              ++ show (length file));
          content_length = end + 1 - start;
          body = streamed s;
        },
        headers,
      )

module _ (from_utf8 : Bytes → Option Text) (valid_header : Text → Bool) (a : Aead)
    (view : Disk → Store) (erase : Erase) where
  serve-sends :
      (w : World) (row : FileRow) (headers : Headers) (file : Bytes) (outcome : RangeOutcome)
      → download_headers from_utf8 valid_header row ≡ ok headers
      → Holds a (view w.disk) row.storage_key file
      → InObject (length file) outcome
      → IsSent outcome
      → (answer : Answer) × (serve from_utf8 valid_header a view erase w row outcome (length file)
          ≡ ok answer)
        × Sends file headers outcome answer
  unfolding serve raw_response_stream response_stream content_range_of InObject
  serve-sends w row headers file full headed holds inside sent =
      let (s, e, c) = holds.whole in
      (
        _,
        ap
              (λ r. stored r >>= λ s.
                raw_response_stream from_utf8 valid_header row full (length file) (length file) s)
              e
            ∙ ap
                (λ r. r >>= λ headers. ok (
                  response_stream (buffered []) full (length file) (length file) (streamed s),
                  headers,
                ))
                headed,
        all_of_it s c,
      )
  serve-sends w row headers file (satisfiable start end) headed holds (p, q) sent =
      let (s, e, c) = holds.span start (end - start + 1) (omega arith) (omega arith) in
      (
        _,
        ap
              (λ r. stored r >>= λ s.
                raw_response_stream from_utf8 valid_header row (satisfiable start end) (length file)
                  (end - start + 1) s)
              e
            ∙ ap
                (λ r. r >>= λ headers. ok (
                  response_stream (buffered []) (satisfiable start end) (length file)
                      (end - start + 1) (streamed s),
                  headers,
                ))
                headed
            ∙ ap
                (λ n. ok (
                  response_stream (buffered []) (satisfiable start end) (length file) n
                      (streamed s),
                  headers,
                ))
                (counted start end p),
        a_part start end s (subst (λ n. collect s ≡ ok (slice start n file)) (ends start end p) c),
      )
  serve-sends w row headers file invalid headed holds inside sent = elim sent [ ]
  serve-sends w row headers file unsatisfiable headed holds inside sent = elim sent [ ]

  module _ (argon2 : Argon2) (now : ℕ) (w : World) (request : RawRequest) (row : FileRow)
      (found : load_live_file now w.files request.segment ≡ ok row)
      (let_in : password_check argon2 request.session request.password row ≡ ok tt)
      (kept : row.burn_after_read ≡ false) (headers : Headers)
      (headed : download_headers from_utf8 valid_header row ≡ ok headers) (file : Bytes)
      (sized : row.size_bytes ≡ pos (length file))
      (holds : Holds a (view w.disk) row.storage_key file) where
    admitted :
        (header : Option Text)
        → range_text request.range ≡ ok header
        → admit from_utf8 valid_header a view erase argon2 now w request
          ≡ ok (row, length file, parse header (length file))
    unfolding admit
    admitted header legible = rw (found, let_in, legible, sized) refl

    raw_found-serve :
        (outcome : RangeOutcome)
        → IsSent outcome
        → raw_found from_utf8 valid_header a view erase w row (length file) outcome
          ≡ (serve from_utf8 valid_header a view erase w row outcome (length file), w)
    raw_found-serve full sent = if_false _ _ kept
    raw_found-serve (satisfiable start end) sent = if_false _ _ kept
    raw_found-serve invalid sent = elim sent [ ]
    raw_found-serve unsatisfiable sent = elim sent [ ]

    -- For a row that is found, open to the request and not burning, with a stored length that
    -- is the file's and headers that are legal, and a store that holds the file, nothing
    -- changes, and a `Range` header that asks for everything is answered with status 200, no
    -- `Content-Range`, the length of the file and a stream that reads to the file, one that
    -- asks for a range with status 206, `Content-Range` with its ends and the length of the
    -- file, the number of its bytes and a stream that reads to those bytes.
    pub raw_sends :
        (header : Option Text)
        → range_text request.range ≡ ok header
        → IsSent (parse header (length file))
        → (answer : Answer) × (raw from_utf8 valid_header a view erase argon2 now w request
            ≡ (ok answer, w))
          × Sends file headers (parse header (length file)) answer
    unfolding raw
    raw_sends header legible sent =
        let outcome = parse header (length file) in
        let (answer, e, sends) =
          serve-sends w row headers file outcome headed holds (parse-InObject header (length file))
            sent in
        (
          answer,
          ap (raw_admitted from_utf8 valid_header a view erase w) (admitted header legible)
              ∙ raw_found-serve outcome sent
              ∙ ap (λ r. (r, w)) e,
          sends,
        )
