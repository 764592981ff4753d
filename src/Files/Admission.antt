-- ===== src/Files/Admission.antt =====
-- Proofs about `raw` of src/routes/files.rs: who gets an answer.
use uwuubox.Files.Raw.{RawRequest, Answer, admit, Admitted, raw, raw_admitted}
use uwuubox.Storage.{Store}
use uwuubox.Ids.{strip_to_core, is_reserved}
use uwuubox.ObjectCrypt.{Aead}
use uwuubox.Prelude.{
  ℕ, ◌≡◌, ◌∙◌, ap, sym, Bool-cases, inl, inr, if_true, if_false, true, false, Option, none, some,
  Result, ok, err, Bool, Bytes, guard, refl, ◌||◌, bind_ok, then_ok,
}
use uwuubox.Text.{Text, is_empty}
use uwuubox.Errors.{Fault, failed, not_found}
use uwuubox.Accounts.Auth.{Argon2, verify_password}
use uwuubox.Files.Rows.{FileRow, is_expired, World, find_file, Disk, Erase}
use uwuubox.Files.Access.{
  found_or_404, live, Session, unlock_key, check_password, password_check, load_live_file,
  is_unlocked, unlocked_at, unwrap_or_false, query_unlocks,
}

-- The row is not protected, or the session or the query has its password.
pub data IsOpenTo (argon2 : Argon2) (session : Session) (password : Option Text) (row : FileRow)
    : Type 0 where
  unprotected : row.access_password_hash ≡ none → IsOpenTo argon2 session password row
  by_session :
      (hash : Text)
      → row.access_password_hash ≡ some hash
      → session (unlock_key row) ≡ some true
      → IsOpenTo argon2 session password row
  by_query :
      (hash given : Text)
      → row.access_password_hash ≡ some hash
      → password ≡ some given
      → verify_password argon2 hash given ≡ true
      → IsOpenTo argon2 session password row

found_row : (o : Option FileRow) (row : FileRow) → found_or_404 o ≡ ok row → o ≡ some row
found_row none row h = cc
found_row (some r) row h = cc

live_row :
    (now : ℕ) (r row : FileRow)
    → live now r ≡ ok row
    → (r ≡ row) × (is_expired now row.expires_at ≡ false)
live_row now r row h = elim (Bool-cases (is_expired now r.expires_at)) [
  | inl gone ↦ (let e : err (failed not_found) ≡ ok row = sym (if_true _ _ gone) ∙ h in cc)
  | inr there ↦
      (let e : r ≡ row = ok_eq (sym (if_false _ _ there) ∙ h) in
        (e, ap (λ r. is_expired now r.expires_at) (sym e) ∙ there))
]
  where
    ok_eq : {a b : FileRow} → ◌≡◌ {A = Result Fault FileRow} (ok a) (ok b) → a ≡ b
    ok_eq h = cc

guard-true : (b : Bool) (f : Fault) → guard b f ≡ ok tt → b ≡ true
guard-true true f h = refl
guard-true false f h = cc

module _ (argon2 : Argon2) (session : Session) (password : Option Text) (row : FileRow) where
  by_entry :
      (hash : Text) (entry : Option Bool)
      → row.access_password_hash ≡ some hash
      → session (unlock_key row) ≡ entry
      → (given : Option Text) → password ≡ given
      → (unwrap_or_false entry || query_unlocks argon2 hash given) ≡ true
      → IsOpenTo argon2 session password row
  by_entry hash (some true) e f given g h = by_session hash e f
  by_entry hash (some false) e f none g h = cc
  by_entry hash (some false) e f (some given) g h = by_query hash given e g h
  by_entry hash none e f none g h = cc
  by_entry hash none e f (some given) g h = by_query hash given e g h

  by_hash :
      (o : Option Text)
      → row.access_password_hash ≡ o
      → check_password argon2 (unlocked_at (session (unlock_key row)) o) password o ≡ ok tt
      → IsOpenTo argon2 session password row
  by_hash none e h = unprotected e
  by_hash (some hash) e h =
      by_entry hash (session (unlock_key row)) e refl password refl (guard-true _ _ h)

  password_check-IsOpenTo :
      password_check argon2 session password row ≡ ok tt → IsOpenTo argon2 session password row
  unfolding password_check is_unlocked
  password_check-IsOpenTo h = by_hash row.access_password_hash refl h

-- What a segment finds, if it finds a row at all.
load_live_file_sound :
    (now : ℕ) (w : World) (segment : Text) (row : FileRow)
    → load_live_file now w.files segment ≡ ok row
    → (find_file (strip_to_core segment) w.files ≡ some row)
      × (is_expired now row.expires_at ≡ false)
unfolding load_live_file
load_live_file_sound now w segment row h =
    elim (Bool-cases (is_empty (strip_to_core segment) || is_reserved (strip_to_core segment))) [
      | inl bad ↦ (let e : err (failed not_found) ≡ ok row = sym (if_true _ _ bad) ∙ h in cc)
      | inr good ↦
          (let (r, found, alive) =
              bind_ok (found_or_404 (find_file (strip_to_core segment) w.files)) (live now) row
                (sym (if_false _ _ good) ∙ h) in
            let (same, fresh) = live_row now r row alive in
            (found_row _ r found ∙ ap some same, fresh))
    ]

module _ (from_utf8 : Bytes → Option Text) (valid_header : Text → Bool) (a : Aead)
    (view : Disk → Store) (erase : Erase) (argon2 : Argon2) (now : ℕ) (w w' : World)
    (request : RawRequest) (answer : Answer) where
  admitted_row :
      (admitted : Admitted)
      → admit from_utf8 valid_header a view erase argon2 now w request ≡ ok admitted
      → (row : FileRow) × (load_live_file now w.files request.segment ≡ ok row)
        × (password_check argon2 request.session request.password row ≡ ok tt)
  unfolding admit
  admitted_row admitted h =
      let (row, found, rest) = bind_ok (load_live_file now w.files request.segment) _ admitted h in
      let (unit, passed) =
        then_ok (password_check argon2 request.session request.password row) _ admitted rest in
      (row, found, passed)

  -- If `raw` answers with anything but an error, the core of the segment names a row that has not
  -- expired, and the row has no password, or the session has its unlock mark, or the query has a
  -- password that its hash verifies.
  pub raw_sound :
      raw from_utf8 valid_header a view erase argon2 now w request ≡ (ok answer, w')
      → (row : FileRow) × (find_file (strip_to_core request.segment) w.files ≡ some row)
        × (is_expired now row.expires_at ≡ false)
        × IsOpenTo argon2 request.session request.password row
  unfolding raw
  raw_sound h = by_case (admit from_utf8 valid_header a view erase argon2 now w request) refl h
    where
      by_case :
          (r : Result Fault Admitted)
          → admit from_utf8 valid_header a view erase argon2 now w request ≡ r
          → raw_admitted from_utf8 valid_header a view erase w r ≡ (ok answer, w')
          → (row : FileRow) × (find_file (strip_to_core request.segment) w.files ≡ some row)
            × (is_expired now row.expires_at ≡ false)
            × IsOpenTo argon2 request.session request.password row
      by_case (err fault) e k = cc
      by_case (ok admitted) e k =
          let (row, found, passed) = admitted_row admitted e in
          let (there, fresh) = load_live_file_sound now w request.segment row found in
          (
            row,
            there,
            fresh,
            password_check-IsOpenTo argon2 request.session request.password row passed,
          )
