-- ===== src/Accounts.antt =====
-- src/db.rs, the table `users`, and the parts of src/auth.rs, src/identity.rs and
-- src/routes/common.rs in the child modules.
pub mod Auth
pub mod Identity
pub mod Access
pub mod Usernames
pub mod Tokens
mod Examples
use uwuubox.Prelude.{ℕ, Option, Bool, List, [], ◌∷◌, none, some, bytes_eq, if◌then◌else◌}
use uwuubox.Prelude.Int.{ℤ}
use uwuubox.Text.{Text}

-- A row of `users`; ids are texts, and times are seconds.
pub record User : Type 0 where
  pub id : Text
  pub username : Text
  pub display_name : Option Text
  pub bio : Option Text
  pub avatar_key : Option Text
  pub password_hash : Option Text
  pub is_admin : Bool
  pub role_id : Option Text
  pub quota_override_bytes : Option ℤ
  pub strip_exif_default : Bool
  pub email : Option Text
  pub created_at : ℕ

unfoldable pub find_user_by_id : List User → Text → Option User
find_user_by_id [] id = none
find_user_by_id (user ∷ users) id =
    let rest = find_user_by_id users id in if bytes_eq user.id id then some user else rest
