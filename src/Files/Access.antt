-- ===== src/Files/Access.antt =====
-- src/routes/files.rs: which rows a request finds, the password, and the handlers that change rows.
use uwuubox.Prelude.{
  ℕ, Option, Bool, List, Bytes, Result, ok, err, guard, [], ◌∷◌, ◌++◌, none, some, bytes_eq,
  if◌then◌else◌, codes, ◌||◌, ◌>>=◌, ◌>>◌,
}
use uwuubox.Text.{Text, trim, trim_end, is_empty}
use uwuubox.Errors.{Fault, failed, bad_request, unauthorized, not_found, forbidden}
use uwuubox.Ids.{strip_to_core, is_reserved}
use uwuubox.Accounts.{User}
use uwuubox.Accounts.Auth.{Argon2, verify_password}
use uwuubox.Accounts.Access.{check_delete_access}
use uwuubox.Files.Rows.{FileRow, World, Erase, Outcome, find_file, is_expired, remove_file}

abbrev pub found_or_404 : Option FileRow → Result Fault FileRow
found_or_404 none = err (failed not_found)
found_or_404 (some row) = ok row

abbrev pub live : ℕ → FileRow → Result Fault FileRow
live now row = if is_expired now row.expires_at then err (failed not_found) else ok row

unfoldable pub load_live_file : ℕ → List FileRow → Text → Result Fault FileRow
unfolding strip_to_core is_reserved find_file is_expired
load_live_file now files segment =
    if is_empty (strip_to_core segment) || is_reserved (strip_to_core segment)
    then err (failed not_found)
    else do row ← found_or_404 (find_file (strip_to_core segment) files); live now row

unfoldable pub unlock_key : FileRow → Text
unfolding trim_end
unlock_key row = codes "uwu_unlock_" ++ trim_end row.id_core

-- What `session.get::<bool>` finds under a name: nothing where it fails.
abbrev pub Session : Type 0
Session = Text → Option Bool

abbrev pub unwrap_or_false : Option Bool → Bool
unwrap_or_false none = Bool.false
unwrap_or_false (some b) = b

abbrev pub unlocked_at : Option Bool → Option Text → Bool
unlocked_at entry none = Bool.true
unlocked_at entry (some hash) = unwrap_or_false entry

unfoldable pub is_unlocked : Session → FileRow → Bool
unfolding unlock_key
is_unlocked session row = unlocked_at (session (unlock_key row)) row.access_password_hash

abbrev pub query_unlocks : Argon2 → Text → Option Text → Bool
query_unlocks argon2 hash none = Bool.false
query_unlocks argon2 hash (some password) = verify_password argon2 hash password

abbrev pub check_password : Argon2 → Bool → Option Text → Option Text → Result Fault Unit
check_password argon2 unlocked password none = ok tt
check_password argon2 unlocked password (some hash) =
    guard (unlocked || query_unlocks argon2 hash password) (failed unauthorized)

-- The check of the password in `raw`.
unfoldable pub password_check : Argon2 → Session → Option Text → FileRow → Result Fault Unit
unfolding is_unlocked verify_password
password_check argon2 session password row =
    check_password argon2 (is_unlocked session row) password row.access_password_hash

abbrev pub set_in : Session → Text → Session
set_in session name k = if bytes_eq k name then some Bool.true else session k

-- Where the browser is sent, and the session then.
unfoldable pub unlock :
    Argon2 → ℕ → List FileRow → Session → Text → Text → Result Fault (Text × Session)
unfolding load_live_file verify_password unlock_key trim_end
unlock argon2 now files session segment password = do
  row ← load_live_file now files segment
  let location = codes "/f/" ++ trim_end row.id_core ++ row.ext
  elim row.access_password_hash [
    | none ↦ ok (location, session)
    | some hash ↦
        if verify_password argon2 hash password
        then ok (location, set_in session (unlock_key row))
        else err (failed unauthorized)
  ]

abbrev pub deleted : Text → Outcome Bool → Outcome Text
deleted core (ok removed, w) = (ok (trim_end core), w)
deleted core (err fault, w) = (err fault, w)

module _ (sha256_hex : Bytes → Text) (erase : Erase) (secret : Bytes) where
  abbrev pub delete_found : World → Option User → Option Text → Text → Option FileRow → Outcome Text
  delete_found w user provided core none = (err (failed not_found), w)
  delete_found w user provided core (some row) =
      if check_delete_access sha256_hex user row.owner_id row.delete_token_hash secret provided
      then deleted core (remove_file erase row.id_core w)
      else (err (failed (forbidden (codes "not allowed"))), w)

  -- `delete_file`: the core in the answer.
  unfoldable pub delete_file : World → Option User → Text → Option Text → Outcome Text
  unfolding check_delete_access remove_file find_file strip_to_core trim_end
  delete_file w user segment provided =
      delete_found w user provided (strip_to_core segment)
        (find_file (strip_to_core segment) w.files)

abbrev pub with_visibility : FileRow → Text → FileRow
with_visibility row visibility = record {
  id_core = row.id_core;
  ext = row.ext;
  owner_id = row.owner_id;
  original_name = row.original_name;
  size_bytes = row.size_bytes;
  mime_stored = row.mime_stored;
  sha256 = row.sha256;
  storage_key = row.storage_key;
  visibility = visibility;
  burn_after_read = row.burn_after_read;
  access_password_hash = row.access_password_hash;
  scan_status = row.scan_status;
  expires_at = row.expires_at;
  thumb_key = row.thumb_key;
  delete_token_hash = row.delete_token_hash;
  created_at = row.created_at;
}

-- `UPDATE files SET visibility = … WHERE id_core = …`
unfoldable pub update_visibility : Text → Text → List FileRow → List FileRow
update_visibility core visibility [] = []
update_visibility core visibility (row ∷ rows) =
    let rest = update_visibility core visibility rows in
    if bytes_eq row.id_core core then with_visibility row visibility ∷ rows else row ∷ rest

abbrev pub is_owned_by : Text → FileRow → Bool
is_owned_by user_id row = elim row.owner_id [
  | none ↦ Bool.false
  | some owner ↦ bytes_eq owner user_id
]

abbrev pub is_visibility : Text → Bool
is_visibility v = bytes_eq v (codes "public") || bytes_eq v (codes "unlisted")

unfoldable pub set_file_visibility : List FileRow → Text → Text → Text → Result Fault (List FileRow)
unfolding find_file update_visibility
set_file_visibility files core user_id visibility = do
  guard (is_visibility visibility)
      (failed (bad_request (codes "visibility must be public|unlisted")))
  row ← found_or_404 (find_file core files)
  guard (is_owned_by user_id row) (failed not_found)
  ok (update_visibility core visibility files)

-- `toggle_file`: the rows, and the core and the visibility in the answer.
unfoldable pub toggle_file :
    List FileRow → Option User → Text → Text → Result Fault (List FileRow × Text × Text)
unfolding set_file_visibility strip_to_core trim trim_end
toggle_file files none segment visibility = err (failed unauthorized)
toggle_file files (some user) segment visibility = do
  rows ← set_file_visibility files (strip_to_core segment) user.id (trim visibility)
  ok (rows, trim_end (strip_to_core segment), trim visibility)
