-- ===== src/ObjectCrypt/Examples.antt =====
-- The theorems on sealed objects, at a cipher that only puts a tag in front.
use uwuubox.Prelude.{ℕ, Bytes, replicate, ◌++◌, ◌∷◌, [], arith, ◌≡◌, refl}
use uwuubox.Text.{strip_prefix}
use uwuubox.Text.Cutting.{strip_prefix-append, strip_prefix_sound}
use uwuubox.ObjectCrypt.{
  Aead, IsAead, seal, open_sealed, parse_stream_header, stream_header, length, ok,
}
use uwuubox.ObjectCrypt.Sealing.{open_sealed-seal, open_sealed_sound}
use uwuubox.ObjectCrypt.Framing.{parse_stream_header-stream_header, stream_nonce-injective}

abbrev tag : Bytes
tag = replicate 16 0

abbrev base : Bytes
base = replicate 16 9

abbrev clear : Aead
clear = record {
  encrypt = λ key nonce pt. tag ++ pt;
  decrypt = λ key nonce ct. strip_prefix tag ct;
}

clear-IsAead : IsAead clear
clear-IsAead = record {
  decrypt-encrypt = λ key nonce pt. strip_prefix-append tag pt;
  length-encrypt = λ key nonce pt. omega arith;
  encrypt-decrypt = λ key nonce ct pt h. strip_prefix_sound tag ct h;
}

open_sealed-seal_example :
    open_sealed clear (replicate 32 7) (seal clear (replicate 32 7) (replicate 24 9) (1 ∷ 2 ∷ []))
    ≡ ok (1 ∷ 2 ∷ [])
open_sealed-seal_example =
    open_sealed-seal clear clear-IsAead (replicate 32 7) (replicate 24 9) (1 ∷ 2 ∷ []) refl

open_sealed_sound_example :
    (nonce : Bytes) × (length nonce ≡ 24)
    × (seal clear (replicate 32 7) (replicate 24 9) (1 ∷ 2 ∷ [])
        ≡ seal clear (replicate 32 7) nonce (1 ∷ 2 ∷ []))
open_sealed_sound_example =
    open_sealed_sound clear clear-IsAead (replicate 32 7)
      (seal clear (replicate 32 7) (replicate 24 9) (1 ∷ 2 ∷ []))
      (open_sealed-seal clear clear-IsAead (replicate 32 7) (replicate 24 9) (1 ∷ 2 ∷ []) refl)

test_stream_header :
    parse_stream_header (stream_header 4096 (replicate 16 9)) ≡ ok (4096, replicate 16 9)
test_stream_header =
    parse_stream_header-stream_header 4096 (replicate 16 9) (omega arith) (omega arith) refl

stream_nonce-injective_example : (base ≡ base) × ◌≡◌ {A = ℕ} 3 3
stream_nonce-injective_example =
    stream_nonce-injective base base 3 3 refl refl (omega arith) (omega arith) refl
