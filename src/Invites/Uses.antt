-- ===== src/Invites/Uses.antt =====
-- Proofs about src/routes/invites.rs: the uses of a code are its redemptions, and no more than it may have.
use uwuubox.Prelude.{
  ℕ, suc, ◌+◌, ◌≤◌, ◌≡◌, true, false, List, [], ◌∷◌, Option, none, some, any, arith, bytes_eq,
  if◌then◌else◌, ltb, if_false, Bool-cases, subst, either_false, inr, inl, bytes_eq_sound, ◌∙◌,
  bytes_eq_refl, ap, sym, if_true, ◌&&◌, refl,
}
use uwuubox.Text.{Text}
use uwuubox.Invites.{
  InviteCode, has_room, Bool, redeem, User, create_user, Register, registered, is_taken, is_current,
  Result, InviteRegistrationError,
}

-- How often a code was redeemed.
unfoldable pub redeemed : Text → List (Text × Text) → ℕ
redeemed code [] = 0
redeemed code ((c, user) ∷ redemptions) =
    if bytes_eq c code then suc (redeemed code redemptions) else redeemed code redemptions

-- The uses stay within the most that there may be.
abbrev pub Fits : ℕ → Option ℕ → Type 0
Fits n none = Unit
Fits n (some most) = n ≤ most

-- Every row counts the redemptions of its code, within its limit, and codes are unique.
unfoldable pub Tallies : List (Text × Text) → List InviteCode → Type 0
Tallies redemptions [] = Unit
Tallies redemptions (invite ∷ invites) =
    (invite.uses ≡ redeemed invite.code redemptions)
    × Fits invite.uses invite.max_uses
    × (any (λ other. bytes_eq other.code invite.code) invites ≡ false)
    × Tallies redemptions invites

room_Fits : (invite : InviteCode) → has_room invite ≡ true → Fits (invite.uses + 1) invite.max_uses
room_Fits invite h = by_case invite.max_uses h
  where
    by_case :
        (o : Option ℕ)
        → elim o [ none ↦ true | some most ↦ ltb invite.uses most ] ≡ true
        → Fits (invite.uses + 1) o
    by_case none h = tt
    by_case (some most) h = ground arith

abbrev has_code : Text → List InviteCode → Bool
has_code code invites = any (λ other. bytes_eq other.code code) invites

abbrev either : Bool → Bool → Bool
either b r = elim b [ true ↦ true | false ↦ r ]

abbrev invites_after : Bool × List InviteCode → List InviteCode
invites_after o = o.1

redeem-codes :
    (now : ℕ) (code c : Text) (invites : List InviteCode)
    → has_code c (redeem now code invites).1 ≡ has_code c invites
unfolding redeem
redeem-codes now code c [] = refl
redeem-codes now code c (invite ∷ invites) = elim (Bool-cases (bytes_eq invite.code code)) [
  | inr other ↦
      ap (λ o. has_code c (invites_after o)) (if_false _ _ other)
      ∙ ap (either (bytes_eq invite.code c)) (redeem-codes now code c invites)
  | inl same ↦ elim (Bool-cases (has_room invite && is_current now invite)) [
    | inl fine ↦ ap (λ o. has_code c (invites_after o)) (if_true _ _ same ∙ if_true _ _ fine)
    | inr closed ↦ ap (λ o. has_code c (invites_after o)) (if_true _ _ same ∙ if_false _ _ closed)
  ]
]

redeemed-other :
    (c code user : Text) (redemptions : List (Text × Text))
    → bytes_eq code c ≡ false
    → redeemed c ((code, user) ∷ redemptions) ≡ redeemed c redemptions
unfolding redeemed
redeemed-other c code user redemptions h = if_false _ _ h

bytes_eq-flip : (a b : Text) → bytes_eq a b ≡ false → bytes_eq b a ≡ false
bytes_eq-flip a b h = elim (Bool-cases (bytes_eq b a)) [
  | inr other ↦ other
  | inl same ↦
      (let e : bytes_eq a b ≡ true =
          subst (λ t. bytes_eq t b ≡ true) (bytes_eq_sound b a same) (bytes_eq_refl b) in
        cc)
]

-- A redemption of another code.
Tallies-other :
    (code user : Text) (redemptions : List (Text × Text)) (invites : List InviteCode)
    → has_code code invites ≡ false
    → Tallies redemptions invites
    → Tallies ((code, user) ∷ redemptions) invites
unfolding Tallies
Tallies-other code user redemptions [] h t = tt
Tallies-other code user redemptions (invite ∷ invites) h (n, fits, unique, t) =
    let (apart, rest) = either_false (bytes_eq invite.code code) (has_code code invites) h in
    (
      n
          ∙ sym (
              redeemed-other invite.code code user redemptions
                (bytes_eq-flip invite.code code apart)),
      fits,
      unique,
      Tallies-other code user redemptions invites rest t,
    )

redeemed-same :
    (c code user : Text) (redemptions : List (Text × Text))
    → bytes_eq c code ≡ true
    → redeemed c redemptions + 1 ≡ redeemed c ((code, user) ∷ redemptions)
unfolding redeemed
redeemed-same c code user redemptions h =
    let back : bytes_eq code c ≡ true =
      subst (λ t. bytes_eq t c ≡ true) (bytes_eq_sound c code h) (bytes_eq_refl c) in
    let e = if_true (suc (redeemed c redemptions)) (redeemed c redemptions) back in omega arith

abbrev is_redeemed : Bool × List InviteCode → Bool
is_redeemed o = o.0

both_true : (a b : Bool) → (a && b) ≡ true → a ≡ true
both_true true b h = refl
both_true false b h = cc

redeem-Tallies :
    (now : ℕ) (code user : Text) (redemptions : List (Text × Text)) (invites : List InviteCode)
    → Tallies redemptions invites
    → (redeem now code invites).0 ≡ true
    → Tallies ((code, user) ∷ redemptions) (redeem now code invites).1
unfolding redeem Tallies
redeem-Tallies now code user redemptions [] t h = tt
redeem-Tallies now code user redemptions (invite ∷ invites) (n, fits, unique, t) h =
    let after = (code, user) ∷ redemptions in
    elim (Bool-cases (bytes_eq invite.code code)) [
      | inl same ↦ elim (Bool-cases (has_room invite && is_current now invite)) [
        | inl fine ↦
            subst (λ o. Tallies after (invites_after o)) (sym (if_true _ _ same ∙ if_true _ _ fine))
              (
                ap (λ n. n + 1) n ∙ redeemed-same invite.code code user redemptions same,
                room_Fits invite (both_true (has_room invite) (is_current now invite) fine),
                unique,
                Tallies-other code user redemptions invites
                    (subst (λ c. has_code c invites ≡ false) (bytes_eq_sound invite.code code same)
                      unique)
                    t,
              )
        | inr closed ↦
            (let e : false ≡ true =
                sym (ap is_redeemed (if_true _ _ same ∙ if_false _ _ closed)) ∙ h in
              cc)
      ]
      | inr other ↦
          subst (λ o. Tallies after (invites_after o)) (sym (if_false _ _ other))
            (
              n
                  ∙ sym (
                      redeemed-other invite.code code user redemptions
                        (bytes_eq-flip invite.code code other)),
              fits,
              redeem-codes now code invite.code invites ∙ unique,
              redeem-Tallies now code user redemptions invites t
                  (sym (ap is_redeemed (if_false _ _ other)) ∙ h),
            )
    ]

module _ (same_name : Text → Text → Bool) where
  -- Registrations at any times, with any users and codes, in a row.
  unfoldable pub registrations : List (ℕ × User × Text) → Register → Register
  unfolding create_user
  registrations [] r = r
  registrations ((now, user, code) ∷ requests) r =
      (create_user same_name now user code (registrations requests r)).1

  abbrev TalliesAfter : Result InviteRegistrationError User × Register → Type 0
  TalliesAfter o = Tallies o.1.redemptions o.1.invites

  create_user-Tallies :
      (now : ℕ) (user : User) (code : Text) (r : Register)
      → Tallies r.redemptions r.invites
      → Tallies
          (create_user same_name now user code r).1.redemptions
          (create_user same_name now user code r).1.invites
  unfolding create_user
  create_user-Tallies now user code r t =
      by_case (redeem now code r.invites).0 (redeem now code r.invites).1
        (λ h. redeem-Tallies now code user.id r.redemptions r.invites t h)
    where
      by_case :
          (found : Bool) (invites : List InviteCode)
          → (found ≡ true → Tallies ((code, user.id) ∷ r.redemptions) invites)
          → Tallies
              (registered same_name r user code (found, invites)).1.redemptions
              (registered same_name r user code (found, invites)).1.invites
      by_case false invites h = t
      by_case true invites h = elim (Bool-cases (is_taken same_name user r.users)) [
        | inl taken ↦ subst TalliesAfter (sym (if_true _ _ taken)) t
        | inr free ↦ subst TalliesAfter (sym (if_false _ _ free)) (h refl)
      ]

  -- If every invite code counts its redemptions, within its limit, and codes are unique, then
  -- after any registrations, refused ones included, the same holds.
  pub registrations-Tallies :
      (requests : List (ℕ × User × Text)) (r : Register)
      → Tallies r.redemptions r.invites
      → Tallies (registrations requests r).redemptions (registrations requests r).invites
  unfolding registrations
  registrations-Tallies [] r t = t
  registrations-Tallies ((now, user, code) ∷ requests) r t =
      create_user-Tallies now user code (registrations requests r)
        (registrations-Tallies requests r t)
