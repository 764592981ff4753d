-- ===== src/Storage/Serving.antt =====
-- When a store hands out an object: what the reading side relies on, from either backend.
use uwuubox.Storage.Reading.{collect}
use uwuubox.Prelude.{
  ◌>>=◌, zero, suc, ℕ, ◌+◌, ◌-◌, ◌^◌, ◌≤◌, ◌<◌, ◌≡◌, refl, true, Option, arith, Bytes, length, take,
  drop, length-take, length-drop, ok, ◌∙◌, ap, if◌then◌else◌, ◌==◌, [], suc, err, codes, take_all,
}
use uwuubox.Text.{Text}
use uwuubox.Storage.{
  Store, local, s3, Fs, S3Client, found, is_safe_key, raw_get, raw_get_range, raw_get_range_relaxed,
  range_end, answer, exact_length, raw_stream, backend, send_pieces, short_message,
}

-- Every read of the key answers from the bytes `b`.
pub record Serves (store : Store) (key : Text) (b : Bytes) : Type 0 where
  pub whole : raw_get store key ≡ ok b
  pub exact :
      (offset n : ℕ)
      → offset + n ≤ length b
      → raw_get_range store key offset n ≡ ok (take n (drop offset b))
  pub relaxed :
      (offset n : ℕ)
      → offset < length b
      → 0 < n
      → offset + n < 2 ^ 64
      → raw_get_range_relaxed store key offset n ≡ ok (take n (drop offset b))
  pub streamed : collect (raw_stream store key) ≡ ok b
  pub short :
      0 < length b → length b < 4 → (m : Text) × (raw_get_range store key 0 4 ≡ err (backend m))

-- A file of the local directory is served.
pub local-Serves :
    (fs : Fs) (k : Option Bytes) (key : Text) (b : Bytes)
    → is_safe_key key ≡ true
    → fs.open_file key ≡ found b
    → collect (send_pieces (fs.pieces key)) ≡ ok b
    → Serves (local fs k) key b
unfolding raw_get raw_get_range raw_get_range_relaxed raw_stream
local-Serves fs k key b safe there pieces = record {
  whole = rw (safe, there);
  exact = λ offset n h. rw (safe, there) (ground arith);
  relaxed = λ offset n h p q. rw (safe, there);
  streamed = rw (safe, there) pieces;
  short = λ p h. (codes "failed to fill whole buffer", rw (safe, there) (ground arith));
}

-- What S3 documents of `GetObject` with a range that begins inside the object.
pub record IsS3 (client : S3Client) : Type 0 where
  pub ranged :
      (key : Text) (b : Bytes) (start end : ℕ)
      → client.get_object key ≡ found b
      → start ≤ end
      → start < length b
      → client.get_object_range key start end ≡ found (take (end + 1 - start) (drop start b))

module _ (client : S3Client) (key : Text) (b : Bytes) (law : IsS3 client)
    (there : client.get_object key ≡ found b) where
  ranged_n :
      (offset n : ℕ)
      → offset < length b
      → 0 < n
      → client.get_object_range key offset (offset + (n - 1)) ≡ found (take n (drop offset b))
  ranged_n offset n h p =
      let e : offset + (n - 1) + 1 - offset ≡ n = omega arith in
      law.ranged key b offset (offset + (n - 1)) there (omega arith) h
      ∙ ap (λ k. found (take k (drop offset b))) e

  s3_exact :
      (offset n : ℕ)
      → offset + n ≤ length b
      → length b < 2 ^ 64
      → (if n == 0 then ok [] else do
        last ← range_end offset n
        got ← answer key (client.get_object_range key offset last)
        exact_length n got)
        ≡ ok (take n (drop offset b))
  s3_exact offset zero h small = refl
  s3_exact offset (suc n) h small =
      ground
        (arith, ranged_n offset (suc n), length-take (suc n) (drop offset b), length-drop offset b)

  s3_relaxed :
      (offset n : ℕ)
      → offset < length b
      → 0 < n
      → offset + n < 2 ^ 64
      → (if n == 0
          then ok []
          else do last ← range_end offset n; answer key (client.get_object_range key offset last))
        ≡ ok (take n (drop offset b))
  s3_relaxed offset n h p q = ground (arith, ranged_n offset n)

-- A range past the end of the object comes back short, which the length test refuses.
s3_short :
    (client : S3Client) (key : Text) (b : Bytes)
    → IsS3 client
    → client.get_object key ≡ found b
    → 0 < length b
    → length b < 4
    → (m : Text) × ((do got ← answer key (client.get_object_range key 0 3); exact_length 4 got)
        ≡ err (backend m))
s3_short client key b law there p h =
    let whole : client.get_object_range key 0 3 ≡ found b =
      law.ranged key b 0 3 there (omega arith) p ∙ ap found (take_all 4 b (omega arith)) in
    (short_message 4 (length b), rw whole (ground arith))

-- An object of the bucket is served.
pub s3-Serves :
    (client : S3Client) (k : Option Bytes) (key : Text) (b : Bytes)
    → IsS3 client
    → is_safe_key key ≡ true
    → client.get_object key ≡ found b
    → collect (send_pieces (client.pieces key)) ≡ ok b
    → length b < 2 ^ 64
    → Serves (s3 client k) key b
unfolding raw_get raw_get_range raw_get_range_relaxed raw_stream
s3-Serves client k key b law safe there pieces small = record {
  whole = rw (safe, there);
  exact = λ offset n h. rw safe (s3_exact client key b law there offset n h small);
  relaxed = λ offset n h p q. rw safe (s3_relaxed client key b law there offset n h p q);
  streamed = rw (safe, there) pieces;
  short = λ p h. rw safe (s3_short client key b law there p h);
}
