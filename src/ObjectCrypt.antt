-- ===== src/ObjectCrypt.antt =====
-- src/object_crypt.rs: the two sealed object formats. XChaCha20-Poly1305, the random generator and
-- the hex decoder are third-party code: a record of functions, and arguments.
pub mod Words
pub mod Sealing
pub mod Framing
mod Examples
use uwuubox.Prelude.{
  ℕ, zero, suc, ◌+◌, ◌-◌, ◌*◌, ◌/◌, ◌%◌, ◌^◌, Bool, true, false, not, ◌&&◌, ◌||◌, ◌≡◌, List, [],
  ◌∷◌, ◌++◌, Option, none, some, ltb, leb, ◌==◌, if◌then◌else◌, Bytes, codes, bytes_eq, length,
  take, drop, slice, Result, ok, err,
}
use uwuubox.Text.{Text, trim, show}
use uwuubox.ObjectCrypt.Words.{be_bytes, from_be_bytes}

-- `Aead::encrypt` and `Aead::decrypt` for a key and a nonce.
pub record Aead : Type 0 where
  pub encrypt : Bytes → Bytes → Bytes → Bytes
  pub decrypt : Bytes → Bytes → Bytes → Option Bytes

-- What the cipher documents: a ciphertext opens to its plaintext, the tag is 16 bytes, and only
-- the ciphertext of a plaintext opens to it.
pub record IsAead (a : Aead) : Type 0 where
  pub decrypt-encrypt :
      (key nonce pt : Bytes) → a.decrypt key nonce (a.encrypt key nonce pt) ≡ some pt
  pub length-encrypt : (key nonce pt : Bytes) → length (a.encrypt key nonce pt) ≡ length pt + 16
  pub encrypt-decrypt :
      (key nonce ct pt : Bytes) → a.decrypt key nonce ct ≡ some pt → ct ≡ a.encrypt key nonce pt

-- b"UWU1"
abbrev pub magic : Bytes
magic = 85 ∷ 87 ∷ 85 ∷ 49 ∷ []

-- b"UWU2"
abbrev pub magic_v2 : Bytes
magic_v2 = 85 ∷ 87 ∷ 85 ∷ 50 ∷ []

abbrev pub nonce_len : ℕ
nonce_len = 24

abbrev pub tag_len : ℕ
tag_len = 16

abbrev pub overhead : ℕ
overhead = 4 + nonce_len + tag_len

abbrev pub stream_chunk_pt : ℕ
stream_chunk_pt = 8 * 1024 * 1024

abbrev pub stream_header_len : ℕ
stream_header_len = 4 + 4 + 16

abbrev pub base_len : ℕ
base_len = 16

unfoldable pub is_encrypted : Bytes → Bool
is_encrypted bytes = leb 4 (length bytes) && bytes_eq (take 4 bytes) magic

unfoldable pub is_stream_sealed : Bytes → Bool
is_stream_sealed bytes = leb 4 (length bytes) && bytes_eq (take 4 bytes) magic_v2

abbrev pub checked_key : Result Text Bytes → Result Text Bytes
checked_key (err e) = err (codes "want 64 hex chars (32 bytes): " ++ e)
checked_key (ok bytes) =
    if length bytes == 32
    then ok bytes
    else err (codes "want 64 hex chars (32 bytes), got " ++ show (length bytes) ++ codes " bytes")

-- The key of `UWUU_STORAGE_ENCRYPTION_KEY`; `hex_decode` is that of the hex crate.
unfoldable pub parse_key : (Text → Result Text Bytes) → Text → Result Text Bytes
unfolding trim
parse_key hex_decode raw = checked_key (hex_decode (trim raw))

abbrev decrypted : Text → Option Bytes → Result Text Bytes
decrypted message none = err message
decrypted message (some pt) = ok pt

abbrev pub open_error : Text
open_error = codes "object decrypt failed"

abbrev pub open_chunk_error : Text
open_chunk_error = codes "stream chunk decrypt failed"

-- `base || index`, the index as eight big-endian bytes.
unfoldable pub stream_nonce : Bytes → ℕ → Bytes
stream_nonce base index = base ++ be_bytes 8 index

unfoldable pub stream_header : ℕ → Bytes → Bytes
stream_header chunk_pt base = magic_v2 ++ be_bytes 4 chunk_pt ++ base

-- The chunk size and the base nonce of a v2 header.
unfoldable pub parse_stream_header : Bytes → Result Text (ℕ × Bytes)
parse_stream_header header =
    if ltb (length header) stream_header_len || not (is_stream_sealed header)
    then err (codes "not a v2 stream object")
    else let chunk_pt = from_be_bytes (slice 4 8 header) in
      if (chunk_pt == 0) || ltb (64 * 1024 * 1024) chunk_pt
      then err (codes "bad v2 chunk size")
      else ok (chunk_pt, slice 8 (8 + base_len) header)

-- `div_ceil`; the callers' chunk size is positive.
unfoldable pub stream_chunk_count : ℕ → ℕ → ℕ
stream_chunk_count pt_len chunk_pt = (pt_len + (chunk_pt - 1)) / chunk_pt

module _ (a : Aead) where
  -- `nonce` is what the random generator filled in.
  unfoldable pub seal : Bytes → Bytes → Bytes → Bytes
  seal key nonce plaintext = magic ++ nonce ++ a.encrypt key nonce plaintext

  unfoldable pub open_sealed : Bytes → Bytes → Result Text Bytes
  open_sealed key sealed =
      if not (is_encrypted sealed) || ltb (length sealed) overhead
      then err open_error
      else decrypted open_error
          (a.decrypt key (slice 4 (4 + nonce_len) sealed) (drop (4 + nonce_len) sealed))

  unfoldable pub seal_chunk : Bytes → Bytes → ℕ → Bytes → Bytes
  seal_chunk key base index plaintext = a.encrypt key (stream_nonce base index) plaintext

  unfoldable pub open_chunk : Bytes → Bytes → ℕ → Bytes → Result Text Bytes
  open_chunk key base index sealed =
      decrypted open_chunk_error (a.decrypt key (stream_nonce base index) sealed)
