-- ===== src/Pastes/Checks.antt =====
-- Proofs about src/routes/pastes.rs: what a paste that passes the checks is like.
use uwuubox.Prelude.{
  ◌≡◌, ◌∙◌, ◌⊎◌, sym, refl, Bool, Bool-cases, inl, inr, if_true, if_false, true, false, Option,
  Result, ok, err, guard, not, if◌then◌else◌, Bytes, ◌>>◌, bind_ok, subst, ◌&&◌, ◌||◌, bytes_eq,
  codes,
}
use uwuubox.Prelude.Int.{ℤ, pos, ltb_ℤ}
use uwuubox.Text.{Text, is_empty, len}
use uwuubox.Errors.{Fault, failed, forbidden}
use uwuubox.Ids.{clamp_expiry, ClampError}
use uwuubox.Accounts.Auth.{Argon2}
use uwuubox.Config.{allow_never}
use uwuubox.Pastes.{
  PasteRow, PasteInput, Caller, format_of, granted, expiry_from, is_authed, id_of, is_long_title,
  trimmed, visibility_of, check_paste, access_hash, kept_title,
}

abbrev no_public : Fault
no_public = failed (forbidden (codes "your role cannot publish public pastes"))

-- What the limits of the caller allow.
pub record IsAdmissible (caller : Caller) (input : PasteInput) (row : PasteRow) : Type 0 where
  pub content : (row.body ≡ input.body) × (is_empty row.body ≡ false)
  pub size : ltb_ℤ caller.limits.max_paste_bytes (pos (len row.body)) ≡ false
  pub titled : is_long_title row.title ≡ false
  pub owned : row.owner_id ≡ id_of caller.user
  pub formatted : (row.format ≡ codes "code") ⊎ (row.format ≡ codes "markdown")
  pub visible :
      (row.visibility ≡ codes "unlisted")
      ⊎ ((row.visibility ≡ codes "public")
          × ((is_authed caller.user && not caller.limits.can_publish_public) ≡ false))
  pub burnable : (row.burn_after_read && not caller.limits.can_burn) ≡ false
  pub lifetime :
      (lifetime : Option ℤ) × (clamp_expiry input.expires_in_secs caller.limits.min_expiry_secs
          caller.limits.default_expiry_secs caller.limits.max_expiry_secs
          (allow_never caller.cfg (is_authed caller.user))
        ≡ ok lifetime)
      × (row.expires_at ≡ expiry_from caller.now lifetime)

guard_ok :
    {A : Type 0} (barred : Bool) (f : Fault) (next : Result Fault A) (value : A)
    → (guard (not barred) f >> next) ≡ ok value
    → (barred ≡ false) × (next ≡ ok value)
guard_ok true f next value h = cc
guard_ok false f next value h = (refl, h)

text_of : {a b : Text} → ◌≡◌ {A = Result Fault Text} (ok a) (ok b) → a ≡ b
text_of e = cc

failed_ok : {f : Fault} {a : Text} → ◌≡◌ {A = Result Fault Text} (err f) (ok a) → ⊥
failed_ok e = cc

public_sound :
    (authed may : Bool) (visibility : Text)
    → (if authed && not may then err no_public else ok (codes "public")) ≡ ok visibility
    → (visibility ≡ codes "unlisted")
      ⊎ ((visibility ≡ codes "public") × ((authed && not may) ≡ false))
public_sound authed may visibility h = elim (Bool-cases (authed && not may)) [
  | inl barred ↦ absurd (failed_ok (sym (if_true _ _ barred) ∙ h))
  | inr free ↦ inr (text_of (sym (sym (if_false _ _ free) ∙ h)), free)
]

format_sound :
    (o : Option Text) (format : Text)
    → format_of o ≡ ok format
    → (format ≡ codes "code") ⊎ (format ≡ codes "markdown")
format_sound o format h =
    elim (Bool-cases (is_empty (trimmed o) || bytes_eq (trimmed o) (codes "code"))) [
      | inl code ↦ inl (text_of (sym (sym (if_true _ _ code) ∙ h)))
      | inr other ↦ elim (Bool-cases (bytes_eq (trimmed o) (codes "markdown"))) [
        | inl markdown ↦ inr (text_of (sym (sym (if_false _ _ other ∙ if_true _ _ markdown) ∙ h)))
        | inr bad ↦ absurd (failed_ok (sym (if_false _ _ other ∙ if_false _ _ bad) ∙ h))
      ]
    ]

granted_sound :
    (r : Result ClampError (Option ℤ)) (lifetime : Option ℤ)
    → granted r ≡ ok lifetime
    → r ≡ ok lifetime
granted_sound (ok l) lifetime h = cc
granted_sound (err ClampError.refused) lifetime h = cc
granted_sound (err ClampError.crossed) lifetime h = cc

row_of : {a b : PasteRow} → ◌≡◌ {A = Result Fault PasteRow} (ok a) (ok b) → a ≡ b
row_of e = cc

module _ (quoted : Text → Text) where
  visibility_sound :
      (authed may : Bool) (o : Option Text) (visibility : Text)
      → visibility_of quoted authed may o ≡ ok visibility
      → (visibility ≡ codes "unlisted")
        ⊎ ((visibility ≡ codes "public") × ((authed && not may) ≡ false))
  unfolding visibility_of
  visibility_sound authed may o visibility h =
      elim (Bool-cases (is_empty (trimmed o) || bytes_eq (trimmed o) (codes "unlisted"))) [
        | inl unlisted ↦ inl (text_of (sym (sym (if_true _ _ unlisted) ∙ h)))
        | inr other ↦ elim (Bool-cases (bytes_eq (trimmed o) (codes "public"))) [
          | inl public ↦
              public_sound authed may visibility
                (sym (if_true _ _ public) ∙ sym (if_false _ _ other) ∙ h)
          | inr bad ↦ absurd (failed_ok (sym (if_false _ _ bad) ∙ sym (if_false _ _ other) ∙ h))
        ]
      ]

module _ (quoted : Text → Text) (detect : Option Text → Text → Option Text) (argon2 : Argon2)
    (salt : Bytes) where
  -- A row that `check_paste` passes has the text of the request, which is not empty and within
  -- the limit of the caller, a title of at most 140 characters, the owner, one of the two
  -- formats, a visibility that the role may give, no burning unless the role may, and the time of
  -- expiry that `clamp_expiry` grants.
  pub check_paste-IsAdmissible :
      (caller : Caller) (input : PasteInput) (row : PasteRow)
      → check_paste quoted detect argon2 salt caller input ≡ ok row
      → IsAdmissible caller input row
  unfolding check_paste
  check_paste-IsAdmissible caller input row h =
      let (filled, sized) = guard_ok (is_empty input.body) _ _ row h in
      let (small, titled) =
        guard_ok (ltb_ℤ caller.limits.max_paste_bytes (pos (len input.body))) _ _ row sized in
      let (short, shown) = guard_ok (is_long_title (kept_title input.title)) _ _ row titled in
      let (format, is_format, seen) = bind_ok (format_of input.format) _ row shown in
      let (visibility, is_visibility, burned) =
        bind_ok
          (visibility_of quoted (is_authed caller.user) caller.limits.can_publish_public
            input.visibility)
          _ row seen in
      let (burnable, passed) =
        guard_ok (input.burn_after_read && not caller.limits.can_burn) _ _ row burned in
      let (hash, is_hash, timed) =
        bind_ok (access_hash argon2 salt input.access_password) _ row passed in
      let (lifetime, is_lifetime, last) =
        bind_ok
          (granted (
            clamp_expiry input.expires_in_secs caller.limits.min_expiry_secs
              caller.limits.default_expiry_secs caller.limits.max_expiry_secs
              (allow_never caller.cfg (is_authed caller.user))))
          _ row timed in
      subst (IsAdmissible caller input) (row_of last) (record {
        content = (refl, filled);
        size = small;
        titled = short;
        owned = refl;
        formatted = format_sound input.format format is_format;
        visible = visibility_sound quoted _ _ input.visibility visibility is_visibility;
        burnable = burnable;
        lifetime = (lifetime, granted_sound _ lifetime is_lifetime, refl);
      })
