-- ===== src/Ids/Expiry.antt =====
-- Proofs about `clamp_expiry` of src/ids.rs.
use uwuubox.Prelude.{◌≡◌, arith, true, false, refl, Bool-cases, ◌≢◌, inl, none, inr}
use uwuubox.Prelude.Int.{ℤ, ltb_ℤ, ◌≤ℤ◌}
use uwuubox.Ids.{
  ExpiryRequest, default, never, in_secs, clamp, clamp_expiry, refused, crossed, ClampError, Bool,
  ok, Result, err, Option, some,
}

pub clamp-total :
    (secs lo hi : ℤ) → lo ≤ℤ hi → (r : ℤ) × (clamp secs lo hi ≡ ok r) × (lo ≤ℤ r) × (r ≤ℤ hi)
unfolding clamp
clamp-total secs lo hi h =
    let straight : ltb_ℤ hi lo ≡ false = ground arith in
    elim (Bool-cases (ltb_ℤ secs lo)) [
      | inl low ↦ (lo, rw (straight, low) refl, omega arith, h)
      | inr k ↦ elim (Bool-cases (ltb_ℤ hi secs)) [
        | inl high ↦ (hi, rw (straight, k, high) refl, h, omega arith)
        | inr m ↦ (secs, rw (straight, k, m) refl, ground arith, ground arith)
      ]
    ]

-- What a request with straight limits comes to.
pub Granted : ExpiryRequest → ℤ → ℤ → Bool → Result ClampError (Option ℤ) → Type 0
Granted req lo hi allow (ok none) = (req ≡ never) × (allow ≡ true)
Granted req lo hi allow (ok (some r)) = (req ≢ never) × (lo ≤ℤ r) × (r ≤ℤ hi)
Granted req lo hi allow (err refused) = (req ≡ never) × (allow ≡ false)
Granted req lo hi allow (err crossed) = ⊥

-- With min ≤ default ≤ max, `clamp_expiry` never panics: it answers no expiry exactly for an
-- allowed `Never`, an error only for a refused one, and for every other request a lifetime from min
-- to max.
pub clamp_expiry-Granted :
    (req : ExpiryRequest) (lo mid hi : ℤ) (allow : Bool)
    → lo ≤ℤ mid
    → mid ≤ℤ hi
    → Granted req lo hi allow (clamp_expiry req lo mid hi allow)
unfolding clamp_expiry Granted
clamp_expiry-Granted default lo mid hi allow h k = ((λ e. cc), h, k)
clamp_expiry-Granted never lo mid hi true h k = (refl, refl)
clamp_expiry-Granted never lo mid hi false h k = (refl, refl)
clamp_expiry-Granted (in_secs secs) lo mid hi allow h k =
    let (r, e, low, high) = clamp-total secs lo hi (omega arith) in rw e ((λ e. cc), low, high)

pub clamp_expiry-crossed :
    (secs lo mid hi : ℤ) (allow : Bool)
    → ltb_ℤ hi lo ≡ true
    → clamp_expiry (in_secs secs) lo mid hi allow ≡ err crossed
unfolding clamp_expiry clamp
clamp_expiry-crossed secs lo mid hi allow h = rw h refl
