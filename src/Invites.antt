-- ===== src/Invites.antt =====
-- src/routes/invites.rs: invite codes, and the transaction that redeems one for an account. Whether two
-- texts are the same to the columns of user names and addresses, which ignore case, is the parameter
-- `same_name`. The column `uses` is taken not to overflow.
pub mod Uses
mod Examples
use uwuubox.Prelude.{
  ℕ, ◌+◌, Option, Bool, List, Result, ok, err, guard, [], ◌∷◌, ◌++◌, none, some, bytes_eq,
  if◌then◌else◌, codes, ltb, any, map, not, ◌&&◌, ◌||◌, ◌>>=◌, ◌>>◌,
}
use uwuubox.Prelude.Int.{ℤ, pos, negsuc}
use uwuubox.Text.{Text, trim, is_empty, parse_i64}
use uwuubox.Errors.{AppError, bad_request}
use uwuubox.Ids.{nth}
use uwuubox.Accounts.{User}
use uwuubox.Accounts.Auth.{token_alphabet}

-- A row of `invite_codes`.
pub record InviteCode : Type 0 where
  pub code : Text
  pub max_uses : Option ℕ
  pub uses : ℕ
  pub expires_at : Option ℕ

-- The tables that a registration changes; a redemption is a code and a user.
pub record Register : Type 0 where
  pub invites : List InviteCode
  pub users : List User
  pub redemptions : List (Text × Text)

pub data InviteRegistrationError : Type 0 where
  invalid : InviteRegistrationError
  database : InviteRegistrationError

abbrev pub has_room : InviteCode → Bool
has_room invite = elim invite.max_uses [ none ↦ Bool.true | some most ↦ ltb invite.uses most ]

abbrev pub is_current : ℕ → InviteCode → Bool
is_current now invite = elim invite.expires_at [ none ↦ Bool.true | some at ↦ ltb now at ]

abbrev pub used_once_more : InviteCode → InviteCode
used_once_more invite = record {
  code = invite.code;
  max_uses = invite.max_uses;
  uses = invite.uses + 1;
  expires_at = invite.expires_at;
}

-- `redeem`: one statement, so no other runs between its test and its update. `code` is the primary
-- key.
unfoldable pub redeem : ℕ → Text → List InviteCode → Bool × List InviteCode
redeem now code [] = (Bool.false, [])
redeem now code (invite ∷ invites) =
    let (found, rest) = redeem now code invites in
    if bytes_eq invite.code code
    then (if has_room invite && is_current now invite
        then (Bool.true, used_once_more invite ∷ invites)
        else (Bool.false, invite ∷ invites))
    else (found, invite ∷ rest)

module _ (same_name : Text → Text → Bool) where
  -- The keys of `users`; a missing address is like no other.
  abbrev pub same_email : Option Text → Option Text → Bool
  same_email none other = Bool.false
  same_email (some email) none = Bool.false
  same_email (some email) (some other) = same_name email other

  abbrev pub is_taken : User → List User → Bool
  is_taken user users =
      any
        (λ u.
          bytes_eq u.id user.id
          || same_name u.username user.username
          || same_email u.email user.email)
        users

  abbrev pub registered :
      Register
      → User
      → Text
      → Bool × List InviteCode
      → Result InviteRegistrationError User × Register
  registered r user code (Bool.false, invites) = (err invalid, r)
  registered r user code (Bool.true, invites) =
      if is_taken user r.users then (err database, r) else (
        ok user,
        record {
          invites = invites;
          users = user ∷ r.users;
          redemptions = (code, user.id) ∷ r.redemptions;
        },
      )

  -- `create_user`: an error rolls the transaction back.
  unfoldable pub create_user :
      ℕ → User → Text → Register → Result InviteRegistrationError User × Register
  unfolding redeem
  create_user now user code r = registered r user code (redeem now code r.invites)

-- `create`, of a code that is not there.
unfoldable pub create : Text → Option ℕ → Option ℕ → List InviteCode → Option (List InviteCode)
create code max_uses expires_at invites =
    if any (λ invite. bytes_eq invite.code code) invites
    then none
    else some
        (record { code = code; max_uses = max_uses; uses = 0; expires_at = expires_at } ∷ invites)

-- `revoke`: whether there was such a code.
unfoldable pub revoke : ℕ → Text → List InviteCode → Bool × List InviteCode
revoke now code [] = (Bool.false, [])
revoke now code (invite ∷ invites) =
    let (found, rest) = revoke now code invites in
    if bytes_eq invite.code code
    then (
      Bool.true,
      record {
        code = invite.code;
        max_uses = invite.max_uses;
        uses = invite.uses;
        expires_at = some now;
      }
          ∷ invites,
    )
    else (found, invite ∷ rest)

-- The indices are those that the generator drew.
unfoldable pub random_code : List ℕ → Text
random_code indices = codes "uwu-inv-" ++ map (nth token_alphabet) indices

abbrev pub unwrap_or_empty : Option Text → Text
unwrap_or_empty none = []
unwrap_or_empty (some s) = s

abbrev pub at_least_one : Option ℤ → Result AppError (Option ℕ)
at_least_one none = err (bad_request (codes "max_uses must be a number"))
at_least_one (some (negsuc n)) =
    if ltb n 2_147_483_648
    then err (bad_request (codes "max_uses must be at least 1"))
    else err (bad_request (codes "max_uses must be a number"))
at_least_one (some (pos n)) =
    if ltb n 1
    then err (bad_request (codes "max_uses must be at least 1"))
    else if ltb n 2_147_483_648
    then ok (some n)
    else err (bad_request (codes "max_uses must be a number"))

-- A number of 32 bits is one of 64 bits in the smaller range.
unfoldable pub parse_optional_max_uses : Option Text → Result AppError (Option ℕ)
unfolding trim parse_i64
parse_optional_max_uses value =
    if is_empty (trim (unwrap_or_empty value))
    then ok none
    else at_least_one (parse_i64 (trim (unwrap_or_empty value)))
