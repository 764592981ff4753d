-- ===== src/ObjectCrypt/Words.antt =====
-- `to_be_bytes` and `from_be_bytes` of unsigned machine words.
use native.Mathlib.Nat.{pow-suc}
use uwuubox.Prelude.{
  ℕ, zero, suc, ◌+◌, ◌*◌, ◌/◌, ◌%◌, ◌^◌, ◌<◌, ◌≡◌, refl, ap, ◌∙◌, sym, [], ◌∷◌, ◌++◌, arith, Bytes,
  length, length-append,
}

-- The lowest `n` bytes of a number, the highest first.
unfoldable pub be_bytes : ℕ → ℕ → Bytes
be_bytes zero v = []
be_bytes (suc n) v = be_bytes n (v / 256) ++ (v % 256) ∷ []

unfoldable pub from_be : ℕ → Bytes → ℕ
from_be acc [] = acc
from_be acc (b ∷ bs) = from_be (acc * 256 + b) bs

unfoldable pub from_be_bytes : Bytes → ℕ
unfolding from_be
from_be_bytes bs = from_be 0 bs

from_be-append : (acc : ℕ) (xs ys : Bytes) → from_be acc (xs ++ ys) ≡ from_be (from_be acc xs) ys
unfolding from_be
from_be-append acc [] ys = refl
from_be-append acc (x ∷ xs) ys = from_be-append (acc * 256 + x) xs ys

pub length-be_bytes : (n v : ℕ) → length (be_bytes n v) ≡ n
unfolding be_bytes
length-be_bytes zero v = refl
length-be_bytes (suc n) v =
    length-append (be_bytes n (v / 256)) ((v % 256) ∷ [])
    ∙ omega (arith, length-be_bytes n (v / 256))

-- A word that fits its bytes is read back from them.
pub from_be_bytes-be_bytes : (n v : ℕ) → v < 256 ^ n → from_be_bytes (be_bytes n v) ≡ v
unfolding be_bytes from_be_bytes
from_be_bytes-be_bytes zero v h = omega arith
from_be_bytes-be_bytes (suc n) v h =
    let fits : v < 256 ^ n * 256 = rw pow-suc at h in
    from_be-append 0 (be_bytes n (v / 256)) ((v % 256) ∷ [])
    ∙ ap (λ k. k * 256 + v % 256) (from_be_bytes-be_bytes n (v / 256) (omega arith))
    ∙ omega arith

-- Different words have different bytes.
pub be_bytes-injective :
    (n v w : ℕ) → v < 256 ^ n → w < 256 ^ n → be_bytes n v ≡ be_bytes n w → v ≡ w
be_bytes-injective n v w hv hw e =
    sym (from_be_bytes-be_bytes n v hv) ∙ ap from_be_bytes e ∙ from_be_bytes-be_bytes n w hw
