-- ===== src/Storage/Examples.antt =====
-- The store's theorems at a file of five bytes in chunks of two, and tests of the definitions.
use uwuubox.Storage.Fixtures.{
  clear, clear-IsAead, directory, directory-IsSink, name, secret, nonce_base, spool, object,
  safe_name, written, keyed_store, open_store, served, open_served, keyed, unkeyed,
}
use uwuubox.Storage.Faults.{get_stream-plaintext, put_file_sized-swallows, get_stream-magic}
use uwuubox.Storage.Retrieval.{put_file-get_range_stream, put_file-get_sealed, put_file-get_stream}
use uwuubox.ObjectCrypt.Words.{from_be_bytes}
use uwuubox.Storage.Reading.{collect, get_range_stream, get, get_stream, key_unset}
use uwuubox.Storage.Writing.{read_bytes, put_file_sized, chunk, wrap_piece, read_error}
use uwuubox.Text.{strip_prefix}
use uwuubox.Storage.RoundTrip.{stored, IsObjectOf, put_file_sized-IsObjectOf}
use uwuubox.Storage.{encryption_key, is_safe_key, raw_get_range, Stream, raw_get_range_relaxed}
use uwuubox.ObjectCrypt.{is_encrypted, is_stream_sealed, parse_stream_header, open_chunk}
use uwuubox.Prelude.{◌≡◌, Bytes, codes, none, refl, ok, ◌≢◌, [], ◌∷◌, err, arith}

-- The loops of the store, run on the example.
span_test : get_range_stream clear keyed_store name 1 3 ≡ ok (ok (2 ∷ []) ∷ ok (3 ∷ 4 ∷ []) ∷ [])
unfolding get_range_stream raw_get_range raw_get_range_relaxed is_safe_key encryption_key
    parse_stream_header is_stream_sealed from_be_bytes open_chunk strip_prefix
span_test = refl

put_file-get_stream_example :
    (s : Stream) × (get_stream clear keyed_store name 5 ≡ ok s)
    × (collect s ≡ ok (1 ∷ 2 ∷ 3 ∷ 4 ∷ 5 ∷ []))
unfolding read_bytes
put_file-get_stream_example =
    put_file-get_stream clear directory directory-IsSink 2 (omega arith) nonce_base name safe_name
      spool tt (omega arith) 5 clear-IsAead (omega arith) refl secret object written keyed_store
      served keyed

put_file-get_range_stream_example :
    (s : Stream) × (get_range_stream clear keyed_store name 1 3 ≡ ok s)
    × (collect s ≡ ok (2 ∷ 3 ∷ 4 ∷ []))
unfolding read_bytes
put_file-get_range_stream_example =
    put_file-get_range_stream clear directory directory-IsSink 2 (omega arith) nonce_base name
      safe_name spool tt (omega arith) 5 clear-IsAead (omega arith) refl secret object written
      keyed_store served keyed 1 3 (omega arith) (omega arith) (omega arith)

put_file-get_sealed_example :
    (get clear keyed_store name ≡ ok object) × (object ≢ 1 ∷ 2 ∷ 3 ∷ 4 ∷ 5 ∷ [])
unfolding read_bytes
put_file-get_sealed_example =
    put_file-get_sealed clear directory directory-IsSink 2 (omega arith) nonce_base name safe_name
      spool tt (omega arith) 5 clear-IsAead (omega arith) refl secret object written keyed_store
      served keyed

put_file_sized-IsObjectOf_example :
    (object : Bytes) × (put_file_sized clear directory 2 none nonce_base name spool 5
      ≡ stored object)
    × IsObjectOf 2 (wrap_piece clear none nonce_base) [] (1 ∷ 2 ∷ 3 ∷ 4 ∷ 5 ∷ []) object
unfolding read_bytes
put_file_sized-IsObjectOf_example =
    put_file_sized-IsObjectOf clear directory directory-IsSink 2 none nonce_base name spool 5
      (omega arith) safe_name tt (omega arith)

test_plaintext :
    (s : Stream) × (get_stream clear (open_store (104 ∷ 105 ∷ [])) name 2 ≡ ok s)
    × (collect s ≡ ok (104 ∷ 105 ∷ []))
unfolding is_encrypted is_stream_sealed
test_plaintext =
    get_stream-plaintext clear (open_store (104 ∷ 105 ∷ [])) name (104 ∷ 105 ∷ [])
      (open_served (104 ∷ 105 ∷ [])) (unkeyed (104 ∷ 105 ∷ [])) 2 (omega arith) refl

test_magic : get_stream clear (open_store (85 ∷ 87 ∷ 85 ∷ 49 ∷ [])) name 4 ≡ err key_unset
unfolding is_encrypted is_stream_sealed
test_magic =
    get_stream-magic clear (open_store (85 ∷ 87 ∷ 85 ∷ 49 ∷ [])) name (85 ∷ 87 ∷ 85 ∷ 49 ∷ [])
      (open_served (85 ∷ 87 ∷ 85 ∷ 49 ∷ [])) (unkeyed (85 ∷ 87 ∷ 85 ∷ 49 ∷ [])) 4 refl

put_file_sized-swallows_example :
    put_file_sized clear directory 2 none nonce_base name
      (chunk (1 ∷ 2 ∷ []) ∷ read_error (codes "EIO") ∷ chunk (3 ∷ []) ∷ [])
      3
    ≡ stored (1 ∷ 2 ∷ [])
put_file_sized-swallows_example =
    put_file_sized-swallows clear directory 2 none nonce_base name (1 ∷ 2 ∷ []) (codes "EIO")
      (chunk (3 ∷ []) ∷ []) 3 directory-IsSink safe_name refl (omega arith)
