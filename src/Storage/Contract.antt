-- ===== src/Storage/Contract.antt =====
-- What the callers of src/storage.rs rely on: a store that holds a file under a key.
use uwuubox.Prelude.{ℕ, ◌+◌, ◌^◌, ◌≤◌, ◌<◌, ◌≡◌, Bytes, length, ok, slice, some, true, List, ◌*◌}
use uwuubox.Text.{Text}
use uwuubox.ObjectCrypt.{Aead, IsAead, base_len}
use uwuubox.Storage.{Store, Stream, is_safe_key, encryption_key}
use uwuubox.Storage.Reading.{get_stream, get_range_stream, collect}
use uwuubox.Storage.Writing.{Sink, Read, read_bytes, put_file_sized}
use uwuubox.Storage.Pumping.{IsClean}
use uwuubox.Storage.Serving.{Serves}
use uwuubox.Storage.RoundTrip.{stored, IsSink}
use uwuubox.Storage.Retrieval.{put_file-get_stream, put_file-get_range_stream}

-- Streams of the file and of its spans read to the bytes of the file.
pub record Holds (a : Aead) (store : Store) (key : Text) (file : Bytes) : Type 0 where
  pub whole : (s : Stream) × (get_stream a store key (length file) ≡ ok s) × (collect s ≡ ok file)
  pub span :
      (offset n : ℕ)
      → 0 < n
      → offset + n ≤ length file
      → (s : Stream) × (get_range_stream a store key offset n ≡ ok s)
        × (collect s ≡ ok (slice offset (offset + n) file))

-- A store holds what `put_file` has sealed and the backend serves.
pub put_file-Holds :
    (a : Aead) (sink : Sink) (works : IsSink sink) (size : ℕ) (pos : 0 < size) (base : Bytes)
    (key : Text) (safe : is_safe_key key ≡ true) (reads : List Read) (clean : IsClean reads)
    (nonempty : 0 < length (read_bytes reads)) (pt_len : ℕ) (laws : IsAead a)
    (bound : size ≤ 64 * 1024 * 1024) (base_16 : length base ≡ base_len) (k object : Bytes)
    (written : put_file_sized a sink size (some k) base key reads pt_len ≡ stored object)
    (store : Store) (serves : Serves store key object) (keyed : encryption_key store ≡ some k)
    → length object + size + 16 < 2 ^ 64
    → Holds a store key (read_bytes reads)
put_file-Holds a sink works size pos base key safe reads clean nonempty pt_len laws bound base_16 k
      object written store serves keyed small =
    record {
      whole =
          put_file-get_stream a sink works size pos base key safe reads clean nonempty pt_len laws
            bound base_16 k object written store serves keyed;
      span = λ offset n p le.
          put_file-get_range_stream a sink works size pos base key safe reads clean nonempty pt_len
            laws bound base_16 k object written store serves keyed offset n p le small;
    }
