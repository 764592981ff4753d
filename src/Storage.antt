-- ===== src/Storage.antt =====
-- src/storage.rs: the object store over a local directory or an S3 bucket. The file system and the
-- S3 service are third-party: a store holds what they answer. An asynchronous stream is the list of
-- the items that its producer sends to a consumer that reads to the end.
pub mod Writing
pub mod Reading
pub mod Serving
mod Chunks
pub mod Pumping
pub mod Streaming
pub mod Spans
pub mod RoundTrip
pub mod Retrieval
pub mod Faults
pub mod Contract
pub mod Fixtures
mod Examples
use uwuubox.Prelude.{
  ℕ, ◌+◌, ◌-◌, ◌^◌, Bool, true, false, not, ◌&&◌, List, [], ◌∷◌, ◌++◌, Option, none, some, ltb, leb,
  ◌==◌, if◌then◌else◌, Bytes, codes, length, take, drop, Result, ok, err, ◌>>=◌, ◌>>◌, guard,
}
use uwuubox.Text.{Text, is_empty, contains_text, starts_with, show}

-- The errors of the store; `panicked` is the panic of `assert_safe_key`.
pub data StorageError : Type 0 where
  not_found : Text → StorageError
  backend : Text → StorageError
  panicked : StorageError

-- The answer of a backend to a request for bytes.
pub data Fetch : Type 0 where
  found : Bytes → Fetch
  missing : Fetch
  failed : Text → Fetch

-- `std::fs` below the root directory: the content of a file, and the pieces in which reads hand it
-- out.
pub record Fs : Type 0 where
  pub open_file : Text → Fetch
  pub pieces : Text → List (Result Text Bytes)

-- The S3 client for a bucket: `GetObject`, the same with `Range: bytes=start-end`, and the pieces
-- of a response body.
pub record S3Client : Type 0 where
  pub get_object : Text → Fetch
  pub get_object_range : Text → ℕ → ℕ → Fetch
  pub pieces : Text → List (Result Text Bytes)

-- The backends, each with its optional encryption key.
pub data Store : Type 0 where
  local : Fs → Option Bytes → Store
  s3 : S3Client → Option Bytes → Store

abbrev pub Stored : Type 0 → Type 0
Stored A = Result StorageError A

abbrev pub Stream : Type 0
Stream = List (Stored Bytes)

unfoldable pub file_key : Text → Text → Text
file_key core ext = codes "files/" ++ core ++ ext

unfoldable pub avatar_key : Text → Text → Text
avatar_key id ext = codes "avatars/" ++ id ++ ext

unfoldable pub is_safe_key : Text → Bool
unfolding contains_text starts_with
is_safe_key key =
    not (contains_text (codes "..") key) && not (starts_with (codes "/") key) && not (is_empty key)

abbrev pub assert_safe_key : Text → Stored (Unit {0})
assert_safe_key key = guard (is_safe_key key) panicked

abbrev pub answer : Text → Fetch → Stored Bytes
answer key (found b) = ok b
answer key missing = err (not_found key)
answer key (failed m) = err (backend m)

-- `LocalStore::get` and `S3Store::get`
unfoldable pub raw_get : Store → Text → Stored Bytes
raw_get (local fs k) key = do assert_safe_key key; answer key (fs.open_file key)
raw_get (s3 client k) key = do assert_safe_key key; answer key (client.get_object key)

-- `read_exact` after `seek`
abbrev pub read_exact : ℕ → ℕ → Bytes → Stored Bytes
read_exact offset n b =
    if leb (offset + n) (length b)
    then ok (take n (drop offset b))
    else err (backend (codes "failed to fill whole buffer"))

abbrev pub short_message : ℕ → ℕ → Text
short_message n got =
    codes "short ranged read: expected " ++ show n ++ codes " bytes, got " ++ show got

abbrev pub short_read : ℕ → ℕ → StorageError
short_read n got = backend (short_message n got)

-- The end of a requested range, in 64 bits.
abbrev pub range_end : ℕ → ℕ → Stored ℕ
range_end offset n =
    if ltb (offset + (n - 1)) (2 ^ 64)
    then ok (offset + (n - 1))
    else err (backend (codes "requested range overflow"))

abbrev pub exact_length : ℕ → Bytes → Stored Bytes
exact_length n b = if length b == n then ok b else err (short_read n (length b))

-- `get_range`: exactly `n` bytes, or an error.
unfoldable pub raw_get_range : Store → Text → ℕ → ℕ → Stored Bytes
raw_get_range (local fs k) key offset n = do
  assert_safe_key key
  if n == 0 then ok [] else do b ← answer key (fs.open_file key); read_exact offset n b
raw_get_range (s3 client k) key offset n = do
  assert_safe_key key
  if n == 0 then ok [] else do
    last ← range_end offset n
    b ← answer key (client.get_object_range key offset last)
    exact_length n b

-- `raw_get_range_relaxed`: short at the end of the object.
unfoldable pub raw_get_range_relaxed : Store → Text → ℕ → ℕ → Stored Bytes
raw_get_range_relaxed (local fs k) key offset n = do
  assert_safe_key key
  b ← answer key (fs.open_file key)
  ok (take n (drop offset b))
raw_get_range_relaxed (s3 client k) key offset n = do
  assert_safe_key key
  if n == 0
      then ok []
      else do last ← range_end offset n; answer key (client.get_object_range key offset last)

-- The items that a body's pieces become; the first fault ends them.
unfoldable pub send_pieces : List (Result Text Bytes) → Stream
send_pieces [] = []
send_pieces (ok c ∷ rest) = ok c ∷ send_pieces rest
send_pieces (err m ∷ rest) = err (backend m) ∷ []

abbrev pub send_body : Text → List (Result Text Bytes) → Fetch → Stream
send_body key pieces (found b) = send_pieces pieces
send_body key pieces missing = err (not_found key) ∷ []
send_body key pieces (failed m) = err (backend m) ∷ []

-- `raw_stream`; a panic of its task ends the stream with no item.
unfoldable pub raw_stream : Store → Text → Stream
unfolding send_pieces
raw_stream (local fs k) key =
    if is_safe_key key then send_body key (fs.pieces key) (fs.open_file key) else []
raw_stream (s3 client k) key =
    if is_safe_key key then send_body key (client.pieces key) (client.get_object key) else []

unfoldable pub encryption_key : Store → Option Bytes
encryption_key (local fs k) = k
encryption_key (s3 client k) = k
