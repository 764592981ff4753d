-- ===== src/Config/Limits.antt =====
-- Proofs about `validate` of src/config.rs: what an accepted configuration fulfils.
use uwuubox.Prelude.{ℕ, ◌≡◌, false, refl, ◌>>◌, arith, err, ◌+◌, ◌<◌, zero, ap, ◌∙◌, sym}
use uwuubox.Prelude.Int.{◌+ℤ◌, ℤ, pos, ltb_ℤ, ◌≤ℤ◌, pos_part}
use uwuubox.Text.{Text}
use uwuubox.Config.{
  InstanceConfig, validate, body_limit, wrap_i64, Bool, Result, guard, ok, true, not, i64_bound,
  at_least_one, negsuc, ltb, suc,
}

-- Both parts of a passed check pass.
pub >>-ok : (m k : Result Text Unit) → (m >> k) ≡ ok tt → (m ≡ ok tt) × (k ≡ ok tt)
>>-ok (ok a) k h = (refl, h)
>>-ok (err e) k h = cc

pub guard-last : (b : Bool) (e : Text) → guard b e ≡ ok tt → b ≡ true
guard-last true e h = refl
guard-last false e h = cc

-- The numbers are positive and in order.
pub record HasLimits (cfg : InstanceConfig) : Type 0 where
  pub file_positive : pos 1 ≤ℤ cfg.max_file_bytes
  pub min_positive : pos 1 ≤ℤ cfg.min_expiry_secs
  pub anonymous_below : cfg.anonymous_max_bytes ≤ℤ cfg.max_file_bytes
  pub min_below : cfg.min_expiry_secs ≤ℤ cfg.default_expiry_secs
  pub default_below : cfg.default_expiry_secs ≤ℤ cfg.max_expiry_secs

positive_of : (v : ℤ) → ltb_ℤ (pos 0) v ≡ true → pos 1 ≤ℤ v
positive_of v h = ground arith

below_of : (a b : ℤ) → not (ltb_ℤ b a) ≡ true → a ≤ℤ b
below_of a b h = ground arith

at_least_one-pos : (n : ℕ) → 0 < n → at_least_one (pos n) ≡ n
at_least_one-pos zero h = absurd (omega arith)
at_least_one-pos (suc n) h = refl

wrapped :
    (v : ℤ)
    → pos 1 ≤ℤ v
    → pos_part v + 2_097_152 < i64_bound
    → pos (at_least_one (wrap_i64 (v +ℤ pos 2_097_152))) ≡ v +ℤ pos 2_097_152
unfolding ◌+ℤ◌
wrapped (pos n) h fits =
    let sum : pos n +ℤ pos 2_097_152 ≡ pos (n + 2_097_152) = ground arith in
    let small : ltb (n + 2_097_152) i64_bound ≡ true = ground arith in
    ap (λ z. pos (at_least_one (wrap_i64 z))) sum
    ∙ rw small (ap pos (at_least_one-pos (n + 2_097_152) (omega arith)))
    ∙ sym sum
wrapped (negsuc n) h fits = absurd (omega arith)

-- A configuration that passes `validate` has a positive file size and shortest lifetime, an
-- anonymous limit no larger than the file size, and min ≤ default ≤ max for the lifetimes.
pub validate-HasLimits : (cfg : InstanceConfig) → validate cfg ≡ ok tt → HasLimits cfg
unfolding validate
validate-HasLimits cfg h =
    let (h7, _) = >>-ok _ _ h in
    let (h6, top) = >>-ok _ _ h7 in
    let (h5, low) = >>-ok _ _ h6 in
    let (h4, anon) = >>-ok _ _ h5 in
    let (_, signs) = >>-ok _ _ h4 in
    let (p1, rest1) = >>-ok _ _ signs in
    let (_, rest2) = >>-ok _ _ rest1 in
    let (_, rest3) = >>-ok _ _ rest2 in
    let (p4, _) = >>-ok _ _ rest3 in
    record {
      file_positive = positive_of cfg.max_file_bytes (guard-last _ _ p1);
      min_positive = positive_of cfg.min_expiry_secs (guard-last _ _ p4);
      anonymous_below = below_of cfg.anonymous_max_bytes cfg.max_file_bytes (guard-last _ _ anon);
      min_below = below_of cfg.min_expiry_secs cfg.default_expiry_secs (guard-last _ _ low);
      default_below = below_of cfg.default_expiry_secs cfg.max_expiry_secs (guard-last _ _ top);
    }

-- For a configuration that passes `validate`, and a file size that is at least 2 MiB below 2^63,
-- the limit on request bodies is the file size and 2 MiB, without wrapping around.
pub body_limit-above :
    (cfg : InstanceConfig)
    → validate cfg ≡ ok tt
    → pos_part cfg.max_file_bytes + 2_097_152 < i64_bound
    → pos (body_limit cfg) ≡ cfg.max_file_bytes +ℤ pos 2_097_152
unfolding body_limit ◌+ℤ◌
body_limit-above cfg h fits =
    let limits = validate-HasLimits cfg h in wrapped cfg.max_file_bytes limits.file_positive fits
