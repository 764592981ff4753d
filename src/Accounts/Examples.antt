-- ===== src/Accounts/Examples.antt =====
-- The theorems on usernames and tokens, at a hash that is the identity.
use uwuubox.Prelude.{
  ℕ, zero, suc, ◌<◌, All, arith, codes, ◌≡◌, refl, err, none, some, replicate, true, Bytes, [], ◌∷◌,
  ◌↔◌,
}
use uwuubox.Text.{Text}
use uwuubox.Accounts.Auth.{
  trim_matches, oidc_base_username, validate_username, delete_token_hash, is_api_token_format,
  new_api_token,
}
use uwuubox.Accounts.Access.{check_delete_access}
use uwuubox.Accounts.Usernames.{oidc_base_username_registrable}
use uwuubox.Accounts.Identity.{current_user, current_identity, user_of_identity}
use uwuubox.Accounts.Tokens.{
  peppered_hash-injective, check_delete_access-anonymous, is_api_token_format-new_api_token,
  current_user-current_identity,
}

abbrev same : Text → Text
same s = s

abbrev key : Bytes
key = 1 ∷ []

test_short : oidc_base_username same (codes "a") ≡ codes "user-a"
unfolding oidc_base_username
test_short = refl

test_reserved : oidc_base_username same (codes "_admin_") ≡ codes "admin_uwu"
unfolding oidc_base_username
test_reserved = refl

oidc_base_username_registrable_example :
    validate_username (oidc_base_username same (codes "a"))
    ≡ err (codes "username may only contain a-z, 0-9, _")
unfolding trim_matches
oidc_base_username_registrable_example = oidc_base_username_registrable same (codes "a")

test_injective : (codes "a" ≡ codes "a") × (key ≡ key) × (codes "t" ≡ codes "t")
test_injective =
    peppered_hash-injective same (λ x y e. e) (codes "a") (codes "a") key key (codes "t")
      (codes "t") (refl, tt) (refl, tt) refl refl

check_delete_access-anonymous_example :
    (check_delete_access same none none
        (some (delete_token_hash same (1 ∷ []) (codes "t")))
        (1 ∷ [])
        (some (codes "u"))
      ≡ true)
    ↔ (codes "u" ≡ codes "t")
check_delete_access-anonymous_example =
    check_delete_access-anonymous same (λ x y e. e) none (1 ∷ []) (codes "t") (codes "u")

drawn : (n : ℕ) → All (λ i. i < 62) (replicate n 61)
drawn zero = tt
drawn (suc n) = (omega arith, drawn n)

test_token : is_api_token_format (new_api_token (replicate 32 61)) ≡ true
test_token = is_api_token_format-new_api_token (replicate 32 61) refl (drawn 32)

current_user-current_identity_example :
    current_user same [] 0 [] none [] (some (codes "Bearer x")) ≡ (
      user_of_identity (current_identity same [] 0 [] none [] (some (codes "Bearer x"))).0,
      (current_identity same [] 0 [] none [] (some (codes "Bearer x"))).1,
    )
current_user-current_identity_example =
    current_user-current_identity same [] 0 [] none [] (some (codes "Bearer x"))
