-- ===== src/Roles/Expiry.antt =====
-- Proofs about the lifetime limits of a caller with a role: src/routes/roles.rs, src/db.rs.
use uwuubox.Prelude.{◌≡◌, Option, some, none, ok, Bool, true, arith, err, subst, guard, codes, refl}
use uwuubox.Prelude.Int.{ℤ, ltb_ℤ, ◌≤ℤ◌}
use uwuubox.Config.{InstanceConfig}
use uwuubox.Config.Limits.{>>-ok, guard-last}
use uwuubox.Ids.{clamp_expiry, in_secs, crossed}
use uwuubox.Ids.Expiry.{clamp_expiry-crossed}
use uwuubox.Roles.{RoleInput, Role, EffectiveLimits, limits_under, validate, validate_name, ordered}

-- Either the role leaves the three limits of a lifetime alone, or it sets them all.
pub data SetsTogether (r : RoleInput) : Type 0 where
  unset :
      r.min_expiry_secs ≡ none
      → r.default_expiry_secs ≡ none
      → r.max_expiry_secs ≡ none
      → SetsTogether r
  set :
      (a b c : ℤ)
      → r.min_expiry_secs ≡ some a
      → r.default_expiry_secs ≡ some b
      → r.max_expiry_secs ≡ some c
      → SetsTogether r

pub Straight : EffectiveLimits → Type 0
Straight limits =
    (limits.min_expiry_secs ≤ℤ limits.default_expiry_secs)
    × (limits.default_expiry_secs ≤ℤ limits.max_expiry_secs)

validate-ordered :
    (r : RoleInput)
    → validate r ≡ ok tt
    → ordered r.min_expiry_secs r.default_expiry_secs r.max_expiry_secs ≡ true
unfolding validate
validate-ordered r h = let (_, last) = >>-ok _ _ h in guard-last _ _ last

ordered-straight : (a b c : ℤ) → ordered (some a) (some b) (some c) ≡ true → (a ≤ℤ b) × (b ≤ℤ c)
ordered-straight a b c h = ground arith

-- Under a configuration with min ≤ default ≤ max, a role that passes `validate` and sets all three
-- expiry limits or none leaves the caller with min ≤ default ≤ max.
pub limits_under-Straight :
    (cfg : InstanceConfig) (role : Role) (quota : Option ℤ)
    → cfg.min_expiry_secs ≤ℤ cfg.default_expiry_secs
    → cfg.default_expiry_secs ≤ℤ cfg.max_expiry_secs
    → validate role.fields ≡ ok tt
    → SetsTogether role.fields
    → Straight (limits_under cfg (some role) quota)
unfolding limits_under Straight
limits_under-Straight cfg role quota below above v (unset a b c) = rw (a, b, c) (below, above)
limits_under-Straight cfg role quota below above v (set a b c p q r) =
    rw (p, q, r)
      (ordered-straight a b c (
        subst (λ o. ordered o (some b) (some c) ≡ true) p
          (subst (λ o. ordered role.fields.min_expiry_secs o (some c) ≡ true) q
            (subst
              (λ o. ordered role.fields.min_expiry_secs role.fields.default_expiry_secs o ≡ true) r
              (validate-ordered role.fields v)))))

crossed_ordered :
    (a : ℤ) (d : Option ℤ)
    → guard (ordered (some a) d none) (codes "expiry limits must satisfy min <= default <= max")
      ≡ ok tt
crossed_ordered a none = refl
crossed_ordered a (some d) = refl

-- A role with a good name and no quota that sets a shortest lifetime above the configuration's
-- longest one, and no longest one of its own, passes `validate`, and every upload under it that
-- asks for a number of seconds panics in `clamp`.
pub validate-crossed :
    (cfg : InstanceConfig) (role : Role) (quota : Option ℤ) (min_secs secs : ℤ) (never : Bool)
    → validate_name role.fields.name ≡ ok tt
    → role.fields.quota_bytes ≡ none
    → role.fields.min_expiry_secs ≡ some min_secs
    → role.fields.max_expiry_secs ≡ none
    → ltb_ℤ cfg.max_expiry_secs min_secs ≡ true
    → (validate role.fields ≡ ok tt)
      × (let limits = limits_under cfg (some role) quota in
          clamp_expiry
            (in_secs secs)
            limits.min_expiry_secs
            limits.default_expiry_secs
            limits.max_expiry_secs
            never
          ≡ err crossed)
unfolding validate limits_under
validate-crossed cfg role quota min_secs secs never name no_quota at_min no_max high = (
  rw (name, no_quota, at_min, no_max) (crossed_ordered min_secs role.fields.default_expiry_secs),
  rw (at_min, no_max) (clamp_expiry-crossed secs min_secs _ cfg.max_expiry_secs never high),
)
