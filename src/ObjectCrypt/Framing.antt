-- ===== src/ObjectCrypt/Framing.antt =====
-- The v2 format: the header, the nonces and the number of the chunks.
use uwuubox.Prelude.{
  ℕ, ◌+◌, ◌*◌, ◌^◌, ◌≤◌, ◌<◌, ◌≡◌, sym, ap, ◌∙◌, true, ◌++◌, arith, Bytes, length, length-append,
  take, drop, ok, take_all, drop_left, take_left,
}
use uwuubox.ObjectCrypt.{
  magic_v2, base_len, stream_header_len, is_stream_sealed, stream_nonce, stream_header,
  parse_stream_header, stream_chunk_count,
}
use uwuubox.ObjectCrypt.Words.{
  be_bytes, from_be_bytes, length-be_bytes, from_be_bytes-be_bytes, be_bytes-injective,
}

pub length-stream_header :
    (chunk_pt : ℕ) (base : Bytes)
    → length base ≡ base_len
    → length (stream_header chunk_pt base) ≡ stream_header_len
unfolding stream_header
length-stream_header chunk_pt base h =
    omega (arith, length-append (be_bytes 4 chunk_pt) base, length-be_bytes 4 chunk_pt)

is_stream_sealed-magic : (rest : Bytes) → is_stream_sealed (magic_v2 ++ rest) ≡ true
unfolding is_stream_sealed
is_stream_sealed-magic rest = ground arith

stream_header-is_stream_sealed :
    (chunk_pt : ℕ) (base : Bytes) → is_stream_sealed (stream_header chunk_pt base) ≡ true
unfolding stream_header
stream_header-is_stream_sealed chunk_pt base = is_stream_sealed-magic (be_bytes 4 chunk_pt ++ base)

word_of_header :
    (chunk_pt : ℕ) (base : Bytes)
    → take 4 (drop 4 (stream_header chunk_pt base)) ≡ be_bytes 4 chunk_pt
unfolding stream_header
word_of_header chunk_pt base = take_left 4 (be_bytes 4 chunk_pt) base (length-be_bytes 4 chunk_pt)

base_of_header :
    (chunk_pt : ℕ) (base : Bytes)
    → length base ≡ base_len
    → take 16 (drop 8 (stream_header chunk_pt base)) ≡ base
unfolding stream_header
base_of_header chunk_pt base h =
    ap (take 16) (drop_left 4 (be_bytes 4 chunk_pt) base (length-be_bytes 4 chunk_pt))
    ∙ take_all 16 base (omega arith)

-- The v2 header of a positive chunk size of at most 64 MiB and a base nonce of 16 bytes is read
-- back as these two.
pub parse_stream_header-stream_header :
    (chunk_pt : ℕ) (base : Bytes)
    → 0 < chunk_pt
    → chunk_pt ≤ 64 * 1024 * 1024
    → length base ≡ base_len
    → parse_stream_header (stream_header chunk_pt base) ≡ ok (chunk_pt, base)
unfolding parse_stream_header
parse_stream_header-stream_header chunk_pt base pos small h =
    let n : from_be_bytes (take 4 (drop 4 (stream_header chunk_pt base))) ≡ chunk_pt =
      ap from_be_bytes (word_of_header chunk_pt base)
      ∙ from_be_bytes-be_bytes 4 chunk_pt (omega arith) in
    ground (
      arith,
      n,
      length-stream_header chunk_pt base h,
      stream_header-is_stream_sealed chunk_pt base,
      base_of_header chunk_pt base h,
    )

-- Two chunks have the same nonce only if their base nonces, of 16 bytes, and their 64-bit indices
-- are the same.
pub stream_nonce-injective :
    (base base' : Bytes) (i j : ℕ)
    → length base ≡ base_len
    → length base' ≡ base_len
    → i < 2 ^ 64
    → j < 2 ^ 64
    → stream_nonce base i ≡ stream_nonce base' j
    → (base ≡ base') × (i ≡ j)
unfolding stream_nonce
stream_nonce-injective base base' i j h h' hi hj e = (
  sym (take_left 16 base (be_bytes 8 i) h) ∙ ap (take 16) e ∙ take_left 16 base' (be_bytes 8 j) h',
  be_bytes-injective 8 i j (omega arith) (omega arith) (
      sym (drop_left 16 base (be_bytes 8 i) h)
      ∙ ap (drop 16) e
      ∙ drop_left 16 base' (be_bytes 8 j) h'),
)

-- The chunks cover the plaintext, and one chunk fewer would not.
pub stream_chunk_count_exact :
    (pt_len chunk_pt : ℕ)
    → 0 < chunk_pt
    → (pt_len ≤ stream_chunk_count pt_len chunk_pt * chunk_pt)
      × (stream_chunk_count pt_len chunk_pt * chunk_pt < pt_len + chunk_pt)
unfolding stream_chunk_count
stream_chunk_count_exact pt_len chunk_pt h = (grind arith, grind arith)
