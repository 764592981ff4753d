-- ===== src/Storage/Retrieval.antt =====
-- The promises of the store to its callers, for files sealed in chunks and for plaintext files.
use uwuubox.Storage.Reading.{get_stream, get_range_stream, get, collect}
use uwuubox.Storage.Serving.{Serves}
use uwuubox.Storage.Pumping.{IsClean}
use uwuubox.Storage.{is_safe_key, Store, encryption_key, Stream}
use uwuubox.Text.{Text}
use uwuubox.Storage.Writing.{Sink, Read, read_bytes, put_file_sized, wrap_piece, header_of}
use uwuubox.Storage.Chunks.{concat, wrap_all}
use uwuubox.ObjectCrypt.{Aead, IsAead, base_len}
use uwuubox.Prelude.{
  ℕ, ◌+◌, ◌*◌, ◌^◌, ◌≤◌, ◌<◌, ◌≡◌, Bytes, List, arith, ◌∷◌, ap, ◌++◌, true, length, Option, none,
  ◌∙◌, some, subst, sym, ok, ◌≢◌, slice, [], refl,
}
use uwuubox.Storage.RoundTrip.{
  stored, IsSink, IsObjectOf, put_file_sized-IsObjectOf, get_stream-of_file,
  get_range_stream-of_file, get-of_file,
}

stored-injective : (x y : Bytes) → stored x ≡ stored y → x ≡ y
stored-injective x y e = ground arith

wrap_all-plain :
    (cs : List Bytes) (index : ℕ) → concat (wrap_all (λ i piece. piece) index cs) ≡ concat cs
wrap_all-plain [] index = refl
wrap_all-plain (c ∷ cs) index = ap (λ t. c ++ t) (wrap_all-plain cs (index + 1))

module _ (a : Aead) (sink : Sink) (works : IsSink sink) (size : ℕ) (pos : 0 < size) (base : Bytes)
    (key : Text) (safe : is_safe_key key ≡ true) (reads : List Read) (clean : IsClean reads)
    (nonempty : 0 < length (read_bytes reads)) (pt_len : ℕ) where
  written_file :
      (encryption_key : Option Bytes) (object : Bytes)
      → put_file_sized a sink size encryption_key base key reads pt_len ≡ stored object
      → IsObjectOf size
          (wrap_piece a encryption_key base)
          (header_of size encryption_key base)
          (read_bytes reads)
          object
  written_file encryption_key object written =
      let (object', written', of_file) =
        put_file_sized-IsObjectOf a sink works size encryption_key base key reads pt_len pos safe
          clean nonempty in
      subst
        (IsObjectOf size (wrap_piece a encryption_key base) (header_of size encryption_key base)
          (read_bytes reads))
        (stored-injective object' object (sym written' ∙ written)) of_file

  -- Without a key the object is the file itself.
  pub put_file_sized-plain :
      put_file_sized a sink size none base key reads pt_len ≡ stored (read_bytes reads)
  put_file_sized-plain =
      let (object, written, of_file) =
        put_file_sized-IsObjectOf a sink works size none base key reads pt_len pos safe clean
          nonempty in
      written ∙ ap stored (of_file.layout ∙ wrap_all-plain of_file.chunks 0 ∙ of_file.whole)

  module _ (laws : IsAead a) (bound : size ≤ 64 * 1024 * 1024) (base_16 : length base ≡ base_len)
      (k : Bytes) (object : Bytes)
      (written : put_file_sized a sink size (some k) base key reads pt_len ≡ stored object)
      (store : Store) (serves : Serves store key object)
      (keyed : encryption_key store ≡ some k) where
    -- If `put_file` wrote an object, sealed with a key in pieces of a positive size of at most
    -- 64 MiB, from a spool file that is not empty and reads without errors, and a store with
    -- that key serves the object, then `get_stream` at the file's length answers a stream that
    -- collects, without an error, to the bytes of the file.
    pub put_file-get_stream :
        (s : Stream) × (get_stream a store key (length (read_bytes reads)) ≡ ok s)
        × (collect s ≡ ok (read_bytes reads))
    put_file-get_stream =
        get_stream-of_file a laws store key k base size pos bound base_16
          (written_file (some k) object written) serves keyed

    -- Under the same conditions `get_range_stream` at a span that is not empty and lies in the
    -- file answers a stream that collects to that slice of the file, as long as the object's
    -- length plus one sealed chunk stays below 2^64.
    pub put_file-get_range_stream :
        (offset n : ℕ)
        → 0 < n
        → offset + n ≤ length (read_bytes reads)
        → length object + size + 16 < 2 ^ 64
        → (s : Stream) × (get_range_stream a store key offset n ≡ ok s)
          × (collect s ≡ ok (slice offset (offset + n) (read_bytes reads)))
    put_file-get_range_stream offset n p le small =
        get_range_stream-of_file a laws store key k base size pos bound base_16
          (written_file (some k) object written) serves keyed offset n p le small

    -- Under the conditions of the round trip, `get` answers the sealed object itself, which is
    -- not the file.
    pub put_file-get_sealed : (get a store key ≡ ok object) × (object ≢ read_bytes reads)
    put_file-get_sealed =
        get-of_file a laws store key k base size pos bound base_16
          (written_file (some k) object written) serves keyed
