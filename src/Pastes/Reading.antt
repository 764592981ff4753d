-- ===== src/Pastes/Reading.antt =====
-- src/routes/pastes.rs: `raw_paste`, the text of a paste with its headers. The UTF-8 bytes of a text are
-- the parameter `to_bytes`.
use uwuubox.Prelude.{
  ℕ, Option, Bool, List, Bytes, Result, ok, err, [], ◌∷◌, ◌++◌, none, some, bytes_eq, length,
  if◌then◌else◌, codes, ◌||◌, ◌>>=◌, ◌>>◌,
}
use uwuubox.Text.{Text, trim_end, is_empty}
use uwuubox.Errors.{Fault, failed, bad_request, not_found}
use uwuubox.Ids.{strip_to_core, is_reserved}
use uwuubox.Accounts.Auth.{Argon2, verify_password}
use uwuubox.Range.{
  RangeOutcome, Response, full, satisfiable, invalid, unsatisfiable, parse, response_stream,
}
use uwuubox.Files.Rows.{is_expired}
use uwuubox.Files.Access.{Session, check_password, unlocked_at}
use uwuubox.Files.Raw.{RawRequest, range_text, body_of}
use uwuubox.Pastes.{PasteRow}

unfoldable pub find_paste : Text → List PasteRow → Option PasteRow
find_paste core [] = none
find_paste core (row ∷ rows) =
    let rest = find_paste core rows in if bytes_eq row.id_core core then some row else rest

abbrev pub paste_or_404 : Option PasteRow → Result Fault PasteRow
paste_or_404 none = err (failed not_found)
paste_or_404 (some row) = ok row

unfoldable pub load_live_paste : ℕ → List PasteRow → Text → Result Fault PasteRow
unfolding strip_to_core is_reserved find_paste is_expired
load_live_paste now pastes segment =
    if is_empty (strip_to_core segment) || is_reserved (strip_to_core segment)
    then err (failed not_found)
    else paste_or_404 (find_paste (strip_to_core segment) pastes) >>= λ row.
        if is_expired now row.expires_at then err (failed not_found) else ok row

unfoldable pub unlock_key : PasteRow → Text
unfolding trim_end
unlock_key row = codes "uwu_unlock_" ++ trim_end row.id_core

unfoldable pub is_unlocked : Session → PasteRow → Bool
unfolding unlock_key
is_unlocked session row = unlocked_at (session (unlock_key row)) row.access_password_hash

-- The check of the password in `raw_paste`.
unfoldable pub paste_check : Argon2 → Session → Option Text → PasteRow → Result Fault Unit
unfolding is_unlocked verify_password
paste_check argon2 session password row =
    check_password argon2 (is_unlocked session row) password row.access_password_hash

-- `DELETE FROM pastes WHERE id_core = …`: whether there was such a row, and the rows that stay.
unfoldable pub delete_row : Text → List PasteRow → Bool × List PasteRow
delete_row core [] = (Bool.false, [])
delete_row core (row ∷ rows) =
    let (found, rest) = delete_row core rows in
    if bytes_eq row.id_core core then (Bool.true, rest) else (found, row ∷ rest)

abbrev is_protected : Option Text → Bool
is_protected none = Bool.false
is_protected (some hash) = Bool.true

-- The response with its header `Cache-Control`; the type is plain text.
abbrev pub PasteAnswer : Type 0
PasteAnswer = Response Bytes × Text

abbrev pub PasteOutcome : Type 0
PasteOutcome = Result Fault PasteAnswer × List PasteRow

abbrev pub paste_cache_control : PasteRow → Text
paste_cache_control row =
    if row.burn_after_read || is_protected row.access_password_hash
    then codes "private, no-store"
    else codes "public, max-age=86400"

unfoldable pub paste_response : PasteRow → RangeOutcome → ℕ → Bytes → PasteAnswer
unfolding response_stream
paste_response row outcome full_len body =
    (response_stream [] outcome full_len (length body) body, paste_cache_control row)

module _ (to_bytes : Text → Bytes) where
  abbrev pub sent : PasteRow → RangeOutcome → PasteAnswer
  sent row outcome =
      paste_response row outcome (length (to_bytes row.body)) (body_of outcome (to_bytes row.body))

  abbrev pub burned : PasteRow → RangeOutcome → Bool × List PasteRow → PasteOutcome
  burned row outcome (Bool.true, pastes) = (ok (sent row outcome), pastes)
  burned row outcome (Bool.false, pastes) = (err (failed not_found), pastes)

  -- The bytes of a row, for a request that asks for everything or for a range inside.
  unfoldable pub hand_out : PasteRow → RangeOutcome → List PasteRow → PasteOutcome
  unfolding paste_response delete_row
  hand_out row outcome pastes =
      if row.burn_after_read
      then burned row outcome (delete_row row.id_core pastes)
      else (ok (sent row outcome), pastes)

  -- The rest of the handler, once a row is found that the request may read.
  unfoldable pub send_paste : PasteRow → RangeOutcome → List PasteRow → PasteOutcome
  unfolding hand_out
  send_paste row invalid pastes =
      (err (failed (bad_request (codes "invalid Range header"))), pastes)
  send_paste row unsatisfiable pastes =
      (ok (paste_response row unsatisfiable (length (to_bytes row.body)) []), pastes)
  send_paste row full pastes = hand_out row full pastes
  send_paste row (satisfiable start end) pastes = hand_out row (satisfiable start end) pastes

  abbrev pub with_row : List PasteRow → Result Fault (PasteRow × RangeOutcome) → PasteOutcome
  with_row pastes (err fault) = (err fault, pastes)
  with_row pastes (ok (row, outcome)) = send_paste row outcome pastes

  unfoldable pub raw_paste : Argon2 → ℕ → RawRequest → List PasteRow → PasteOutcome
  unfolding load_live_paste paste_check parse send_paste
  raw_paste argon2 now request pastes = with_row pastes (
      load_live_paste now pastes request.segment >>= λ row.
      paste_check argon2 request.session request.password row
      >> (range_text request.range >>= λ header.
          ok (row, parse header (length (to_bytes row.body)))))
