-- ===== src/Errors.antt =====
-- src/error.rs: the errors that requests end in, and the page and the JSON that they become.
pub mod Escaping
mod Examples
use uwuubox.Prelude.{ℕ, codes, List, [], ◌∷◌, ◌++◌, if◌then◌else◌, ◌==◌, Result, ok, err}
use uwuubox.Prelude.Int.{ℤ}
use uwuubox.Text.{Text, show, show_ℤ}
use uwuubox.Storage.{StorageError, backend, panicked}

pub data AppError : Type 0 where
  bad_request : Text → AppError
  unauthorized : AppError
  forbidden : Text → AppError
  not_found : AppError
  too_large : ℤ → AppError
  unsupported_media : Text → AppError
  unprocessable : Text → AppError
  rate_limited : AppError
  service_unavailable : Text → AppError
  internal_error : Text → AppError

-- `AppError::internal` logs its message and forgets it.
abbrev pub internal : Text → AppError
internal message = internal_error (codes "something went wrong")

unfoldable pub status : AppError → ℕ
status (bad_request m) = 400
status unauthorized = 401
status (forbidden m) = 403
status not_found = 404
status (too_large max_bytes) = 413
status (unsupported_media mime) = 415
status (unprocessable m) = 422
status rate_limited = 429
status (service_unavailable m) = 503
status (internal_error m) = 500

unfoldable pub code : AppError → Text
code (bad_request m) = codes "bad_request"
code unauthorized = codes "unauthorized"
code (forbidden m) = codes "forbidden"
code not_found = codes "not_found"
code (too_large max_bytes) = codes "too_large"
code (unsupported_media mime) = codes "unsupported_media_type"
code (unprocessable m) = codes "unprocessable"
code rate_limited = codes "rate_limited"
code (service_unavailable m) = codes "unavailable"
code (internal_error m) = codes "internal_error"

abbrev pub escaped : ℕ → Text
escaped c =
    if c == b'&'
    then codes "&amp;"
    else if c == b'<'
    then codes "&lt;"
    else if c == b'>'
    then codes "&gt;"
    else if c == b'"'
    then codes "&quot;"
    else c ∷ []

unfoldable pub esc : Text → Text
esc [] = []
esc (c ∷ s) = escaped c ++ esc s

-- The title and the detail of the page.
unfoldable pub page_texts : AppError → Text × Text
page_texts (bad_request m) = (codes "error", m)
page_texts (forbidden m) = (codes "error", m)
page_texts unauthorized = (codes "unauthorized", codes "log in first")
page_texts not_found = (codes "not found", codes "nothing here")
page_texts (too_large max_bytes) =
    (codes "too large", codes "payload exceeds the " ++ show_ℤ max_bytes ++ codes "-byte limit")
page_texts (unsupported_media mime) =
    (codes "unsupported media", codes "refusing to serve " ++ mime)
page_texts rate_limited = (codes "too many requests", codes "slow down and retry later")
page_texts (service_unavailable m) = (codes "unavailable", m)
page_texts (unprocessable m) = (codes "rejected", m)
page_texts (internal_error m) = (codes "internal error", m)

-- What stands between the three places that `error_page` fills in.
abbrev pub page_head : Text
page_head =
    codes
      "<!DOCTYPE html><html lang=\"en\"><head><meta charset=\"utf-8\">\n<meta name=\"viewport\" content=\"width=device-width, initial-scale=1\">\n<title>"

abbrev pub page_middle : Text
page_middle =
    codes
      "</title>\n<style>:root{color-scheme:light dark}body{font-family:system-ui,-apple-system,\"Segoe UI\",sans-serif;max-width:40rem;margin:4rem auto;padding:0 1rem;line-height:1.5}a{color:inherit}</style>\n</head><body><h1>"

abbrev pub page_foot : Text
page_foot = codes "</p><p><a href=\"/\">← uwuubox home</a></p></body></html>"

unfoldable pub error_page : ℕ → Text → Text → Text
unfolding esc
error_page status title detail =
    page_head
    ++ show status
    ++ codes " · "
    ++ esc title
    ++ page_middle
    ++ show status
    ++ codes " · "
    ++ esc title
    ++ codes "</h1><p>"
    ++ esc detail
    ++ page_foot

-- `IntoResponse for AppError`: the status and the page.
unfoldable pub into_response : AppError → ℕ × Text
unfolding status page_texts error_page
into_response e =
    let (title, detail) = page_texts e in (status e, error_page (status e) title detail)

-- The values in the bodies of `JsonError`.
pub data JsonField : Type 0 where
  text : Text → Text → JsonField
  number : Text → ℤ → JsonField

abbrev pub with_message : AppError → Text → List JsonField
with_message e m = text (codes "error") (code e) ∷ text (codes "message") m ∷ []

-- The fields of the JSON object.
unfoldable pub json_body : AppError → List JsonField
json_body (bad_request m) = with_message (bad_request m) m
json_body (forbidden m) = with_message (forbidden m) m
json_body (service_unavailable m) = with_message (service_unavailable m) m
json_body (internal_error m) = with_message (internal_error m) m
json_body unauthorized = text (codes "error") (codes "unauthorized") ∷ []
json_body not_found = text (codes "error") (codes "not_found") ∷ []
json_body (too_large max_bytes) =
    text (codes "error") (codes "too_large") ∷ number (codes "max_bytes") max_bytes ∷ []
json_body (unsupported_media mime) =
    text (codes "error") (codes "unsupported_media_type") ∷ text (codes "mime") mime ∷ []
json_body (unprocessable m) =
    text (codes "error") (codes "unprocessable") ∷ text (codes "message") m ∷ []
json_body rate_limited = text (codes "error") (codes "rate_limited") ∷ []

-- How a handler ends without a response of its own: an error, or a panic of its task.
pub data Fault : Type 0 where
  failed : AppError → Fault
  aborted : Fault

-- `From<sqlx::Error>`
abbrev pub from_sqlx : Text → AppError
from_sqlx message = internal message

-- `From<StorageError>`; a panic in the store goes through.
unfoldable pub from_storage : StorageError → Fault
from_storage (StorageError.not_found key) = failed not_found
from_storage (backend message) = failed (internal message)
from_storage panicked = aborted

abbrev pub stored : {A : Type 0} → Result StorageError A → Result Fault A
stored (ok a) = ok a
stored (err e) = err (from_storage e)
