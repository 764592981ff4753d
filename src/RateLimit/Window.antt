-- ===== src/RateLimit/Window.antt =====
-- Proofs about `check` of src/ratelimit.rs: how many hits of an address a window holds.
use uwuubox.Prelude.{
  true, ap, ◌∙◌, if_false, if◌then◌else◌, ℕ, Bool, List, length, ◌≡◌, bytes_eq, ◌≤◌, if_true, false,
  arith, bytes_eq_refl, ◌∷◌, Bool-cases, [], inl, subst, inr, refl, sym, bytes_eq_sound, ◌-◌, ◌<◌,
  ltb, ◌++◌, ◌+◌, length-append, leb,
}
use uwuubox.Text.{Text}
use uwuubox.RateLimit.{AnonLimiter, Hits, hits_of, set_hits, retain, check}

hits_of-set_hits :
    (ip : Text) (hits : List ℕ) (map : Hits) → hits_of ip (set_hits ip hits map) ≡ hits
unfolding hits_of set_hits
hits_of-set_hits ip hits [] = if_true _ _ (bytes_eq_refl ip)
hits_of-set_hits ip hits ((k, old) ∷ map) = elim (Bool-cases (bytes_eq k ip)) [
  | inl same ↦ rw (same, same) refl
  | inr other ↦ rw (other, other) (hits_of-set_hits ip hits map)
]

hits_of-set_other :
    (ip k : Text) (hits : List ℕ) (map : Hits)
    → bytes_eq ip k ≡ false
    → hits_of k (set_hits ip hits map) ≡ hits_of k map
unfolding hits_of set_hits
hits_of-set_other ip k hits [] h = rw h refl
hits_of-set_other ip k hits ((j, old) ∷ map) h = elim (Bool-cases (bytes_eq j ip)) [
  | inl same ↦
      (let miss : bytes_eq j k ≡ false =
          subst (λ t. bytes_eq t k ≡ false) (sym (bytes_eq_sound j ip same)) h in
        rw (same, miss) refl)
  | inr other ↦ elim (Bool-cases (bytes_eq j k)) [
    | inl hit ↦ rw (other, hit) refl
    | inr miss ↦ rw (other, miss) (hits_of-set_other ip k hits map h)
  ]
]

-- What is left of the hits of an address inside the window that ends now, in their order.
pub data Kept (now window : ℕ) : List ℕ → List ℕ → Type 0 where
  none_left : Kept now window [] []
  recent :
      (t : ℕ) (hits kept : List ℕ)
      → now - t < window
      → Kept now window hits kept
      → Kept now window (t ∷ hits) (t ∷ kept)
  old :
      (t : ℕ) (hits kept : List ℕ)
      → window ≤ now - t
      → Kept now window hits kept
      → Kept now window (t ∷ hits) kept

retain-Kept : (now window : ℕ) (hits : List ℕ) → Kept now window hits (retain now window hits)
unfolding retain
retain-Kept now window [] = none_left
retain-Kept now window (t ∷ hits) = elim (Bool-cases (ltb (now - t) window)) [
  | inl new ↦ rw (new) (recent t hits _ (ground arith) (retain-Kept now window hits))
  | inr late ↦ rw (late) (old t hits _ (ground arith) (retain-Kept now window hits))
]

Kept-length :
    (now window : ℕ) (hits kept : List ℕ) → Kept now window hits kept → length kept ≤ length hits
Kept-length now window _ _ none_left = omega arith
Kept-length now window _ _ (recent t hits kept h k) =
    let n = Kept-length now window hits kept k in omega arith
Kept-length now window _ _ (old t hits kept h k) =
    let n = Kept-length now window hits kept k in omega arith

abbrev pub with_hit : Bool → ℕ → List ℕ → List ℕ
with_hit true now kept = kept ++ now ∷ []
with_hit false now kept = kept

-- A hit is allowed exactly if fewer than the most are left in the window; it is recorded after them
-- then, and they alone stay otherwise. Other addresses keep their hits, and the limiter its settings.
pub record IsChecked (limiter : AnonLimiter) (ip : Text) (now : ℕ) (answer : Bool × AnonLimiter)
    : Type 0 where
  pub kept : List ℕ
  pub window : Kept now limiter.window (hits_of ip limiter.inner) kept
  pub allowed : answer.0 ≡ ltb (length kept) limiter.max_hits
  pub hits :
      (k : Text)
      → hits_of k answer.1.inner
        ≡ (if bytes_eq ip k then with_hit answer.0 now kept else hits_of k limiter.inner)
  pub bounded : length (hits_of ip answer.1.inner) ≤ limiter.max_hits
  pub settings : (answer.1.max_hits ≡ limiter.max_hits) × (answer.1.window ≡ limiter.window)

hits_of-set_any :
    (ip k : Text) (hits : List ℕ) (map : Hits)
    → hits_of k (set_hits ip hits map) ≡ (if bytes_eq ip k then hits else hits_of k map)
hits_of-set_any ip k hits map = elim (Bool-cases (bytes_eq ip k)) [
  | inl same ↦
      sym (ap (λ t. hits_of t (set_hits ip hits map)) (bytes_eq_sound ip k same))
      ∙ (hits_of-set_hits ip hits map ∙ sym (if_true _ _ same))
  | inr other ↦ hits_of-set_other ip k hits map other ∙ sym (if_false _ _ other)
]

length-snoc : (hits : List ℕ) (now : ℕ) → length (hits ++ now ∷ []) ≡ length hits + 1
length-snoc hits now = length-append hits (now ∷ [])

-- With at most `max` hits of the address before, `check` allows the hit exactly if fewer than `max`
-- of them are left inside the window; these stay, in their order, and after them the hit, if it is
-- allowed. There are still at most `max`, other addresses keep their hits, and the settings stay.
pub check-IsChecked :
    (limiter : AnonLimiter) (ip : Text) (now : ℕ)
    → length (hits_of ip limiter.inner) ≤ limiter.max_hits
    → IsChecked limiter ip now (check limiter ip now)
unfolding check
check-IsChecked limiter ip now bound =
    let kept = retain now limiter.window (hits_of ip limiter.inner) in
    let window = retain-Kept now limiter.window (hits_of ip limiter.inner) in
    let fewer = Kept-length now limiter.window _ kept window in
    elim (Bool-cases (leb limiter.max_hits (length kept))) [
      | inl full ↦ rw (full) (record {
        kept = kept;
        window = window;
        allowed = ground arith;
        hits = λ k. hits_of-set_any ip k kept limiter.inner;
        bounded =
            subst (λ t. length t ≤ limiter.max_hits) (sym (hits_of-set_hits ip kept limiter.inner))
              (omega arith);
        settings = (refl, refl);
      })
      | inr room ↦ rw (room) (record {
        kept = kept;
        window = window;
        allowed = ground arith;
        hits = λ k. hits_of-set_any ip k (kept ++ now ∷ []) limiter.inner;
        bounded =
            subst (λ t. length t ≤ limiter.max_hits)
              (sym (hits_of-set_hits ip (kept ++ now ∷ []) limiter.inner))
              (ground (arith, length-snoc kept now));
        settings = (refl, refl);
      })
    ]
