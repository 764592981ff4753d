-- ===== src/Pastes/Changing.antt =====
-- src/routes/pastes.rs: `unlock`, `delete_paste` and `toggle_paste`.
use uwuubox.Prelude.{
  Option, Bool, List, Bytes, Result, ok, err, guard, [], ◌∷◌, ◌++◌, none, some, bytes_eq, not,
  if◌then◌else◌, codes, ◌&&◌, ◌>>=◌, ◌>>◌, ℕ,
}
use uwuubox.Text.{Text, trim, trim_end}
use uwuubox.Errors.{AppError, Fault, failed, bad_request, unauthorized, not_found, forbidden}
use uwuubox.Ids.{strip_to_core}
use uwuubox.Roles.{EffectiveLimits}
use uwuubox.Accounts.{User}
use uwuubox.Accounts.Auth.{Argon2, verify_password}
use uwuubox.Accounts.Identity.{Identity, require_scope}
use uwuubox.Accounts.Access.{check_delete_access}
use uwuubox.Files.Access.{Session, set_in, is_visibility}
use uwuubox.Pastes.{PasteRow}
use uwuubox.Pastes.Reading.{find_paste, load_live_paste, paste_or_404, delete_row, unlock_key}

-- Where the browser is sent, and the session then.
unfoldable pub unlock :
    Argon2 → ℕ → List PasteRow → Session → Text → Text → Result Fault (Text × Session)
unfolding load_live_paste verify_password unlock_key trim_end
unlock argon2 now pastes session segment password = load_live_paste now pastes segment >>= λ row.
    elim row.access_password_hash [
      | none ↦ ok (codes "/p/" ++ trim_end row.id_core, session)
      | some hash ↦
          guard (verify_password argon2 hash password) (failed unauthorized)
          >> ok (codes "/p/" ++ trim_end row.id_core, set_in session (unlock_key row))
    ]

abbrev pub fallible : {A : Type 0} → Result AppError A → Result Fault A
fallible (ok value) = ok value
fallible (err e) = err (failed e)

abbrev pub user_of : Option Identity → Option User
user_of none = none
user_of (some identity) = some identity.user

-- The scope is asked for only where the request has a header `Authorization`.
abbrev pub scope_check : Bool → Option Identity → Result Fault Unit
scope_check has_header identity =
    if has_header then fallible (require_scope identity (codes "delete")) >> ok tt else ok tt

abbrev pub deleted : Text → Bool × List PasteRow → Result Fault (Text × List PasteRow)
deleted core (Bool.true, pastes) = ok (core, pastes)
deleted core (Bool.false, pastes) = err (failed not_found)

module _ (sha256_hex : Bytes → Text) (secret : Bytes) where
  -- `delete_paste`: the core in the answer, and the rows; an error leaves the rows as they were.
  unfoldable pub delete_paste :
      Bool
      → Option Identity
      → List PasteRow
      → Text
      → Option Text
      → Result Fault (Text × List PasteRow)
  unfolding require_scope strip_to_core find_paste check_delete_access delete_row
  delete_paste has_header identity pastes segment provided =
      scope_check has_header identity
      >> (paste_or_404 (find_paste (strip_to_core segment) pastes) >>= λ row.
          guard
            (check_delete_access sha256_hex (user_of identity) row.owner_id row.delete_token_hash
              secret provided)
            (failed (forbidden (codes "not allowed")))
          >> deleted (strip_to_core segment) (delete_row (strip_to_core segment) pastes))

abbrev pub with_visibility : PasteRow → Text → PasteRow
with_visibility row visibility = record {
  id_core = row.id_core;
  owner_id = row.owner_id;
  title = row.title;
  body = row.body;
  language = row.language;
  format = row.format;
  visibility = visibility;
  burn_after_read = row.burn_after_read;
  access_password_hash = row.access_password_hash;
  expires_at = row.expires_at;
  delete_token_hash = row.delete_token_hash;
  created_at = row.created_at;
}

-- `UPDATE pastes SET visibility = … WHERE id_core = …`
unfoldable pub update_visibility : Text → Text → List PasteRow → List PasteRow
update_visibility core visibility [] = []
update_visibility core visibility (row ∷ rows) =
    let rest = update_visibility core visibility rows in
    if bytes_eq row.id_core core then with_visibility row visibility ∷ rest else row ∷ rest

abbrev pub is_owned_by : Text → PasteRow → Bool
is_owned_by user_id row = elim row.owner_id [
  | none ↦ Bool.false
  | some owner ↦ bytes_eq owner user_id
]

-- `toggle_paste`, with the limits of the user: the rows, and the core and the visibility in the answer.
unfoldable pub toggle_paste :
    (User → EffectiveLimits)
    → Option Identity
    → List PasteRow
    → Text
    → Text
    → Result Fault (List PasteRow × Text × Text)
unfolding require_scope strip_to_core find_paste trim update_visibility
toggle_paste limits_of identity pastes segment visibility =
    fallible (require_scope identity (codes "delete")) >>= λ who.
    guard (is_visibility (trim visibility))
      (failed (bad_request (codes "visibility must be public|unlisted")))
    >> (guard
          (not (
            bytes_eq (trim visibility) (codes "public")
            && not (limits_of who.user).can_publish_public))
          (failed (forbidden (codes "your role cannot publish public pastes")))
        >> (paste_or_404 (find_paste (strip_to_core segment) pastes) >>= λ row.
            guard (is_owned_by who.user.id row) (failed not_found)
            >> ok (
              update_visibility (strip_to_core segment) (trim visibility) pastes,
              strip_to_core segment,
              trim visibility,
            )))
