-- ===== src/Storage/Reading.antt =====
-- The reading side of src/storage.rs: `get`, `get_stream` and `get_range_stream` with the three
-- object formats: sealed in chunks (v2), sealed as a whole (v1), and plaintext.
use uwuubox.Prelude.{
  ℕ, zero, suc, ◌+◌, ◌-◌, ◌*◌, ◌/◌, ◌%◌, ◌^◌, min, ◌&&◌, ◌||◌, [], ◌∷◌, ◌++◌, Option, none, some,
  ltb, leb, ◌==◌, if◌then◌else◌, Bytes, codes, length, slice, Result, ok, err, ◌>>=◌,
}
use uwuubox.Text.{Text, show}
use uwuubox.ObjectCrypt.{
  Aead, is_encrypted, is_stream_sealed, open_sealed, open_chunk, parse_stream_header,
  stream_chunk_count, stream_header_len,
}
use uwuubox.Storage.{
  StorageError, not_found, backend, panicked, Store, Stored, Stream, raw_get, raw_get_range,
  raw_get_range_relaxed, raw_stream, encryption_key,
}

abbrev pub span_single_max : ℕ
span_single_max = 32 * 1024 * 1024

abbrev pub key_unset : StorageError
key_unset = backend (codes "object is encrypted but UWUU_STORAGE_ENCRYPTION_KEY is unset")

abbrev pub truncated_object : StorageError
truncated_object = backend (codes "truncated stream object")

-- `map_err(StorageError::Backend)`
abbrev pub backend_error : {A : Type 0} → Result Text A → Stored A
backend_error (ok a) = ok a
backend_error (err m) = err (backend m)

-- Going on after the probe of the first four bytes: a read that fails for another reason than a
-- missing object means an object shorter than the probe.
abbrev pub after_probe : Stored Bytes → (Bytes → Stored Stream) → Stored Stream → Stored Stream
after_probe (ok probe) next short_object = next probe
after_probe (err (not_found m)) next short_object = err (not_found m)
after_probe (err (backend m)) next short_object = short_object
after_probe (err panicked) next short_object = err panicked

abbrev pub with_key : {A : Type 0} → Option Bytes → A → (Bytes → A) → A
with_key none unset set = unset
with_key (some k) unset set = set k

-- A stream read to its end: the bytes, or the first error.
unfoldable pub collect : Stream → Stored Bytes
collect [] = ok []
collect (ok b ∷ rest) = do more ← collect rest; ok (b ++ more)
collect (err e ∷ rest) = err e

unfoldable pub slice_plaintext : Bytes → ℕ → ℕ → Stored Bytes
slice_plaintext pt offset n =
    if leb (2 ^ 64) (offset + n)
    then err (backend (codes "requested range overflow"))
    else if ltb (length pt) (offset + n) || ltb (length pt) offset
    then err (
        backend (
          codes "short ranged read: expected "
          ++ show n
          ++ codes " bytes at offset "
          ++ show offset
          ++ codes ", object holds "
          ++ show (length pt)))
    else ok (slice offset (offset + n) pt)

-- The pump of a large span: `skip` bytes are left out, and `want` bytes are sent.
unfoldable pub skip_take : ℕ → ℕ → Stream → Stream
skip_take skip want [] = if want == 0 then [] else err (backend (codes "truncated span")) ∷ []
skip_take skip want (err e ∷ rest) = if want == 0 then [] else err e ∷ []
skip_take skip want (ok c ∷ rest) =
    let skipped = skip_take (skip - length c) want rest in
    let end = min (skip + want) (length c) in
    let sent = ok (slice skip end c) ∷ skip_take 0 (want - (end - skip)) rest in
    if want == 0 then [] else if leb (length c) skip then skipped else sent

unfoldable pub raw_span_stream : Store → Text → ℕ → ℕ → Stored Stream
unfolding skip_take
raw_span_stream store key offset n =
    if leb n span_single_max
    then (do b ← raw_get_range store key offset n; ok (ok b ∷ []))
    else ok (skip_take offset n (raw_stream store key))

-- What is sent of an opened chunk: `trim` bytes are left out and at most `remaining` are sent;
-- `next` goes on with what remains and what is still to trim.
unfoldable pub send_span : ℕ → ℕ → (ℕ → ℕ → Stream) → Result Text Bytes → Stream
send_span remaining trim next (err m) = err (backend m) ∷ []
send_span remaining trim next (ok pt) =
    let sent = min remaining (length pt - trim) in
    if ltb 0 trim && leb (length pt) trim
    then next remaining (trim - length pt)
    else ok (slice trim (trim + sent) pt)
      ∷ (if remaining - sent == 0 then [] else next (remaining - sent) 0)

abbrev pub send_opened : Result Text Bytes → Stream → Stream
send_opened (ok pt) rest = ok pt ∷ rest
send_opened (err m) rest = err (backend m) ∷ []

module _ (a : Aead) where
  unfoldable pub decrypt_if_needed : Option Bytes → Bytes → Stored Bytes
  decrypt_if_needed key raw =
      if is_encrypted raw
      then with_key key (err key_unset) (λ k. backend_error (open_sealed a k raw))
      else ok raw

  unfoldable pub get : Store → Text → Stored Bytes
  unfolding decrypt_if_needed
  get store key = do raw ← raw_get store key; decrypt_if_needed (encryption_key store) raw

  module _ (k base : Bytes) where
    -- One round of the task of `get_stream`: the sealed bytes must have the full length and open.
    unfoldable pub v2_round : ℕ → ℕ → Stored Bytes → Stream → Stream
    v2_round index sealed_len (err e) rest = err e ∷ []
    v2_round index sealed_len (ok sealed) rest =
        if length sealed == sealed_len
        then send_opened (open_chunk a k base index sealed) rest
        else err truncated_object ∷ []

    unfoldable pub v2_span_round : ℕ → ℕ → ℕ → (ℕ → ℕ → Stream) → Stored Bytes → Stream
    unfolding send_span
    v2_span_round index remaining trim next (err e) = err e ∷ []
    v2_span_round index remaining trim next (ok []) = err truncated_object ∷ []
    v2_span_round index remaining trim next (ok (b ∷ bs)) =
        send_span remaining trim next (open_chunk a k base index (b ∷ bs))

  module _ (store : Store) (key : Text) (k base : Bytes) (chunk_pt : ℕ) where
    -- The task of `get_stream`: `count` more chunks, the next at `off` with `remaining` plaintext
    -- bytes to come.
    unfoldable pub v2_chunks : ℕ → ℕ → ℕ → ℕ → Stream
    unfolding v2_round
    v2_chunks zero index off remaining = []
    v2_chunks (suc count) index off remaining =
        let pt_here = min remaining chunk_pt in
        let sealed_len = pt_here + 16 in
        let rest = v2_chunks count (index + 1) (off + sealed_len) (remaining - pt_here) in
        v2_round k base index sealed_len (raw_get_range store key off sealed_len) rest

    -- The task of `v2_span_stream`: `count` more chunks, of whose plaintext `trim` bytes are left
    -- out and `remaining` bytes are sent.
    unfoldable pub v2_span_chunks : ℕ → ℕ → ℕ → ℕ → Stream
    unfolding v2_span_round
    v2_span_chunks zero index remaining trim = []
    v2_span_chunks (suc count) index remaining trim =
        let sealed_want = chunk_pt + 16 in
        v2_span_round k base index remaining trim (v2_span_chunks count (index + 1))
          (raw_get_range_relaxed store key (stream_header_len + index * sealed_want) sealed_want)

  -- The v2 branch of `get_stream`.
  unfoldable pub v2_stream : Store → Text → Bytes → ℕ → Stored Stream
  unfolding v2_chunks
  v2_stream store key k pt_len = do
    header ← raw_get_range store key 0 stream_header_len
    (chunk_pt, base) ← backend_error (parse_stream_header header)
    ok (
        v2_chunks store key k base chunk_pt (stream_chunk_count pt_len chunk_pt) 0 stream_header_len
          pt_len)

  -- The first and the last chunk that the span meets.
  unfoldable pub span_after_header : Store → Text → Bytes → ℕ → ℕ → ℕ → Bytes → Stored Stream
  unfolding v2_span_chunks
  span_after_header store key k pt_offset n chunk_pt base =
      let first = pt_offset / chunk_pt in
      let last = (pt_offset + (n - 1)) / chunk_pt in
      if leb (2 ^ 64) (pt_offset + (n - 1))
      then err (backend (codes "range overflow"))
      else ok (
          v2_span_chunks store key k base chunk_pt (last + 1 - first) first n
            (pt_offset % chunk_pt))

  unfoldable pub v2_span_stream : Store → Text → Bytes → ℕ → ℕ → Stored Stream
  unfolding span_after_header
  v2_span_stream store key k pt_offset n = do
    header ← raw_get_range store key 0 stream_header_len
    (chunk_pt, base) ← backend_error (parse_stream_header header)
    span_after_header store key k pt_offset n chunk_pt base

  -- The part of `get_stream` after the probe of the first four bytes.
  unfoldable pub stream_probed : Store → Text → ℕ → Bytes → Stored Stream
  unfolding v2_stream
  stream_probed store key pt_len probe =
      with_key (encryption_key store)
        (if is_encrypted probe || is_stream_sealed probe
          then err key_unset
          else ok (raw_stream store key))
        (λ k.
          if is_stream_sealed probe
          then v2_stream store key k pt_len
          else do raw ← raw_get store key; pt ← decrypt_if_needed (some k) raw; ok (ok pt ∷ []))

  unfoldable pub get_stream : Store → Text → ℕ → Stored Stream
  unfolding stream_probed
  get_stream store key pt_len =
      after_probe (raw_get_range store key 0 4) (stream_probed store key pt_len)
        (ok (raw_stream store key))

  unfoldable pub range_probed : Store → Text → ℕ → ℕ → Bytes → Stored Stream
  unfolding v2_span_stream
  range_probed store key pt_offset n probe =
      with_key (encryption_key store)
        (if is_encrypted probe || is_stream_sealed probe
          then err key_unset
          else raw_span_stream store key pt_offset n)
        (λ k.
          if is_stream_sealed probe
          then v2_span_stream store key k pt_offset n
          else if is_encrypted probe
          then (do
            raw ← raw_get store key
            pt ← decrypt_if_needed (some k) raw
            cut ← slice_plaintext pt pt_offset n
            ok (ok cut ∷ []))
          else raw_span_stream store key pt_offset n)

  unfoldable pub get_range_stream : Store → Text → ℕ → ℕ → Stored Stream
  unfolding range_probed
  get_range_stream store key pt_offset n =
      if n == 0
      then ok []
      else after_probe (raw_get_range store key 0 4) (range_probed store key pt_offset n)
          (raw_span_stream store key pt_offset n)
