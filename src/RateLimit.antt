-- ===== src/RateLimit.antt =====
-- src/ratelimit.rs: at most `max` recorded hits of an address inside a sliding window.
pub mod Window
mod Examples
use uwuubox.Prelude.{
  ℕ, Bool, List, [], ◌∷◌, if◌then◌else◌, ltb, leb, bytes_eq, length, ◌-◌, false, true, ◌++◌,
}
use uwuubox.Text.{Text}

-- The map of addresses to the times of their hits; an address has one entry.
abbrev pub Hits : Type 0
Hits = List (Text × List ℕ)

pub record AnonLimiter : Type 0 where
  pub inner : Hits
  pub max_hits : ℕ
  pub window : ℕ

unfoldable pub new : ℕ → ℕ → AnonLimiter
new max_hits window = record { inner = []; max_hits = max_hits; window = window }

-- `map.entry(ip).or_default()`
unfoldable pub hits_of : Text → Hits → List ℕ
hits_of ip [] = []
hits_of ip ((k, hits) ∷ map) = if bytes_eq k ip then hits else hits_of ip map

unfoldable pub set_hits : Text → List ℕ → Hits → Hits
set_hits ip hits [] = (ip, hits) ∷ []
set_hits ip hits ((k, old) ∷ map) =
    if bytes_eq k ip then (k, hits) ∷ map else (k, old) ∷ set_hits ip hits map

-- `hits.retain(…)`; `duration_since` is 0 for a later time, as subtraction on ℕ is.
unfoldable pub retain : ℕ → ℕ → List ℕ → List ℕ
retain now window [] = []
retain now window (t ∷ hits) =
    let rest = retain now window hits in if ltb (now - t) window then t ∷ rest else rest

abbrev pub with_hits : AnonLimiter → Text → List ℕ → AnonLimiter
with_hits limiter ip hits = record {
  inner = set_hits ip hits limiter.inner;
  max_hits = limiter.max_hits;
  window = limiter.window;
}

abbrev pub decide : AnonLimiter → Text → ℕ → List ℕ → Bool × AnonLimiter
decide limiter ip now hits =
    if leb limiter.max_hits (length hits)
    then (false, with_hits limiter ip hits)
    else (true, with_hits limiter ip (hits ++ now ∷ []))

-- `check` at the time `now`: whether the hit is allowed, and the limiter after it.
unfoldable pub check : AnonLimiter → Text → ℕ → Bool × AnonLimiter
unfolding hits_of set_hits retain
check limiter ip now = decide limiter ip now (retain now limiter.window (hits_of ip limiter.inner))
