-- ===== src/Accounts/Tokens.antt =====
-- Proofs about the tokens of src/auth.rs, and about who is let in by one: src/identity.rs,
-- src/routes/common.rs.
use uwuubox.Prelude.{
  ℕ, zero, suc, ◌+◌, ◌<◌, All, ◌≡◌, ◌∙◌, ◌↔◌, ap, sym, refl, subst, Bool, true, false, List, Bytes,
  [], ◌∷◌, ◌++◌, arith, length, all, codes, bytes_eq, bytes_eq_sound, bytes_eq_refl, Option, some,
  none, ◌==◌, ◌||◌,
}
use uwuubox.Text.{Text, len, len_utf8, starts_with}
use uwuubox.Ids.{nth}
use uwuubox.Accounts.{User}
use uwuubox.Accounts.Auth.{
  peppered_hash, delete_token_hash, tokens_equal, token_alphabet, is_alnum, new_api_token,
  is_api_token_format, random_alnum,
}
use uwuubox.Accounts.Access.{check_delete_access, is_owner}
use uwuubox.Accounts.Identity.{
  Identity, ApiToken, current_identity, current_user, session_user, bearer_identity,
  user_of_identity, session_or_token, session_user_or_token,
}

-- A domain holds no zero byte.
abbrev pub IsDomain : Text → Type 0
IsDomain s = All (λ c. (c == 0) ≡ false) s

tail_eq : {x y : ℕ} {xs ys : Bytes} → x ∷ xs ≡ y ∷ ys → xs ≡ ys
tail_eq e = cc

-- Where the first zero byte stands.
cut_at_zero :
    (d d' : Text) {r r' : Bytes}
    → IsDomain d
    → IsDomain d'
    → d ++ 0 ∷ r ≡ d' ++ 0 ∷ r'
    → (d ≡ d') × (r ≡ r')
cut_at_zero [] [] h h' e = (refl, cc)
cut_at_zero [] (c ∷ d') h (p, h') e = let z : 0 ≡ c = cc in absurd (ground arith)
cut_at_zero (c ∷ d) [] (p, h) h' e = let z : c ≡ 0 = cc in absurd (ground arith)
cut_at_zero (c ∷ d) (c' ∷ d') (p, h) (p', h') e =
    let (same, rest) = cut_at_zero d d' h h' (tail_eq e) in
    let head : c ≡ c' = cc in (ap (λ t. c ∷ t) same ∙ ap (λ z. z ∷ d') head, rest)

-- Two texts of one length in front of others.
cut_at_length :
    (a b : Bytes) {r r' : Bytes} → length a ≡ length b → a ++ r ≡ b ++ r' → (a ≡ b) × (r ≡ r')
cut_at_length [] [] l e = (refl, e)
cut_at_length [] (y ∷ b) l e = absurd (omega arith)
cut_at_length (x ∷ a) [] l e = absurd (omega arith)
cut_at_length (x ∷ a) (y ∷ b) l e =
    let (same, rest) = cut_at_length a b (omega arith) (tail_eq e) in
    let head : x ≡ y = cc in (ap (λ t. x ∷ t) same ∙ ap (λ z. z ∷ b) head, rest)

module _ (sha256_hex : Bytes → Text)
    (collision_free : (x y : Bytes) → sha256_hex x ≡ sha256_hex y → x ≡ y) where
  pub peppered_hash-injective :
      (domain domain' : Text) (secret secret' : Bytes) (token token' : Text)
      → IsDomain domain
      → IsDomain domain'
      → length secret ≡ length secret'
      → peppered_hash sha256_hex domain secret token
        ≡ peppered_hash sha256_hex domain' secret' token'
      → (domain ≡ domain') × (secret ≡ secret') × (token ≡ token')
  unfolding peppered_hash
  peppered_hash-injective domain domain' secret secret' token token' h h' l e =
      let (same, rest) =
        cut_at_zero domain domain' {r = secret ++ 0 ∷ token} {r' = secret' ++ 0 ∷ token'} h h'
          (collision_free _ _ e) in
      let (same_secret, rest') = cut_at_length secret secret' l rest in
      (same, same_secret, tail_eq rest')

  -- With a hash that has no collisions, a file without an owner whose delete token was hashed
  -- with the secret may be deleted with a token exactly if it is that token, whoever asks.
  pub check_delete_access-anonymous :
      (user : Option User) (secret : Bytes) (token provided : Text)
      → (check_delete_access sha256_hex user none
            (some (delete_token_hash sha256_hex secret token))
            secret
            (some provided)
          ≡ true)
        ↔ (provided ≡ token)
  unfolding check_delete_access delete_token_hash tokens_equal
  check_delete_access-anonymous user secret token provided = (
    λ h.
        (peppered_hash-injective (codes "delete-token-v1") (codes "delete-token-v1") secret secret
          provided token domain domain refl (bytes_eq_sound _ _ (by_token user h))).2,
    λ e. no_owner user (
        subst
          (λ t.
            bytes_eq (peppered_hash sha256_hex (codes "delete-token-v1") secret t)
              (peppered_hash sha256_hex (codes "delete-token-v1") secret token)
            ≡ true)
          (sym e)
          (bytes_eq_refl (peppered_hash sha256_hex (codes "delete-token-v1") secret token))),
  )
    where
      domain : IsDomain (codes "delete-token-v1")
      domain = (
        refl,
        (
          refl,
          (
            refl,
            (
              refl,
              (
                refl,
                (refl, (refl, (refl, (refl, (refl, (refl, (refl, (refl, (refl, (refl, tt)))))))))),
              ),
            ),
          ),
        ),
      )

      no_owner :
          (user : Option User) {matches : Bool}
          → matches ≡ true
          → (is_owner user none || matches) ≡ true
      no_owner none e = e
      no_owner (some u) e = e

      by_token :
          (user : Option User) {matches : Bool}
          → (is_owner user none || matches) ≡ true
          → matches ≡ true
      by_token none e = e
      by_token (some u) e = e

-- A drawn character of a token.
nth-alnum : (i : ℕ) → i < 62 → is_alnum (nth token_alphabet i) ≡ true
nth-alnum i h = all_nth token_alphabet i refl h
  where
    all_nth : (s : Text) (i : ℕ) → all is_alnum s ≡ true → i < length s → is_alnum (nth s i) ≡ true
    all_nth [] i e h = absurd (omega arith)
    all_nth (c ∷ s) zero e h = ground arith
    all_nth (c ∷ s) (suc i) e h = all_nth s i (ground arith) (omega arith)

is_alnum-byte : (c : ℕ) → is_alnum c ≡ true → len_utf8 c ≡ 1
unfolding len_utf8
is_alnum-byte c h = ground arith

random_alnum-format :
    (indices : List ℕ)
    → All (λ i. i < 62) indices
    → (len (random_alnum indices) ≡ length indices) × (all is_alnum (random_alnum indices) ≡ true)
unfolding len random_alnum
random_alnum-format [] h = (refl, refl)
random_alnum-format (i ∷ indices) (p, h) =
    let (e, f) = random_alnum-format indices h in
    let drawn = nth-alnum i p in
    let byte = is_alnum-byte (nth token_alphabet i) drawn in (omega arith, rw (drawn, f))

len-prefixed : (s : Text) → len (codes "uwu_" ++ s) ≡ 4 + len s
unfolding len len_utf8
len-prefixed s = omega arith

format_of :
    (s : Text) → len s ≡ 32 → all is_alnum s ≡ true → is_api_token_format (codes "uwu_" ++ s) ≡ true
unfolding is_api_token_format
format_of s e f =
    let g = len-prefixed s in
    let size : (len (codes "uwu_" ++ s) == 36) ≡ true = ground arith in rw (size, starts_with, f)

pub is_api_token_format-new_api_token :
    (indices : List ℕ)
    → length indices ≡ 32
    → All (λ i. i < 62) indices
    → is_api_token_format (new_api_token indices) ≡ true
unfolding new_api_token
is_api_token_format-new_api_token indices l h =
    let (e, f) = random_alnum-format indices h in format_of (random_alnum indices) (e ∙ l) f

same_user :
    (user : Option User) (by_token : Option Identity × List ApiToken) (tokens : List ApiToken)
    → session_user_or_token user by_token tokens ≡ (
      user_of_identity (session_or_token user by_token tokens).0,
      (session_or_token user by_token tokens).1,
    )
same_user none (found, after) tokens = refl
same_user (some user) by_token tokens = refl

module _ (sha256_hex : Bytes → Text) (users : List User) (now : ℕ) (secret : Bytes) where
  -- `current_user` answers the user of the identity that `current_identity` answers, and leaves
  -- the same tokens marked as used.
  pub current_user-current_identity :
      (session_uid : Option Text) (tokens : List ApiToken) (authorization : Option Text)
      → current_user sha256_hex users now secret session_uid tokens authorization ≡ (
        user_of_identity
            (current_identity sha256_hex users now secret session_uid tokens authorization).0,
        (current_identity sha256_hex users now secret session_uid tokens authorization).1,
      )
  unfolding current_user current_identity
  current_user-current_identity session_uid tokens authorization =
      same_user (session_user sha256_hex users now secret session_uid)
        (bearer_identity sha256_hex users now secret tokens authorization) tokens
