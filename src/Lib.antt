-- ===== src/Lib.antt =====
-- uwuubox, a file sharing service: what its core computes, and why it is right.
--
-- The service takes uploads through a cap on their size, shares equal contents through the table
-- `objects`, keeps the bytes in a directory or in S3, sealed if a key is set, and serves them whole
-- or in ranges. The files here and the code they are about:
--
-- - Text, with Decimal and Cutting: the functions of Rust's `str` and integers that the code calls. A
--   string is the list of its code points.
-- - ObjectCrypt: src/object_crypt.rs. `seal` and `open` (here `open_sealed`), the v2 header, nonces and
--   chunks. XChaCha20-Poly1305 is the record `Aead`; `IsAead` says that it decrypts what it encrypts,
--   adds 16 bytes, and accepts nothing else.
-- - Storage: src/storage.rs. `Store` is the directory or the S3 client, each a record of what its reads
--   answer, and the key. Reading has `get`, `get_stream`, `get_range_stream`; a stream is the list of its
--   items. Writing has `put` and `put_file`: the reads of the spool file are a list, the backend's writes
--   the record `Sink`. Serving says what the reads of an object rely on, for either backend.
-- - Range: src/range.rs. `parse` and the head of the response.
-- - Config: src/config.rs and the table `instance_config` of src/db.rs. Environment is `Env::load`, over a
--   function for the environment; the flat settings of S3, OIDC and mail are records of their own.
-- - Ids: src/ids.rs. Cores, extensions, lifetimes. The panic of `Ord::clamp` is the error `crossed`.
-- - Roles: src/routes/roles.rs `validate`, and `effective_limits` of src/db.rs.
-- - Objects: src/db.rs `acquire_object` and `release_object`, statement by statement, on the list of rows
--   with the constraints of migrations/0002_expansion.sql. The abstract view is the list of references:
--   a table counts it if no key stands twice and each key has as many as its `refcount`.
-- - Errors: src/error.rs. A handler ends in an `AppError` or, as `Fault`, in a panic.
-- - Accounts: src/auth.rs (Auth), src/identity.rs (Identity), src/routes/common.rs (Access), and the
--   row of `users`. SHA-256 in hexadecimal is a parameter, Argon2 a record of two functions.
-- - Files: src/routes/files.rs over the rows of `files`, the table of objects and the bytes, which are
--   the record `World`. Rows has `remove_file`, Access the handlers that look at rows, Raw the handler
--   `raw`; the halves of its `burn` are steps that interleave in Burning. Storage/Contract is
--   what Serving asks of the store.
-- - Sweep: src/expiry.rs, on a `World`. Gc: src/routes/gc.rs, the same; the listings of the store are
--   read off its bytes.
-- - RateLimit: src/ratelimit.rs, at a time that `check` is given.
-- - Mime: src/mime.rs. A panic is `none`.
-- - Upload: src/routes/upload.rs, the caps, the spooling and the Boolean fields. Commit is the end of
--   `upload_inner`, with `store_thumbnail`, on a `World`; whether there is a picture of a video is an
--   argument of it, and Cores the claims of several requests.
-- - Invites: src/routes/invites.rs, on the tables of invites, users and redemptions.
-- - Pastes: src/routes/pastes.rs, the checks of a new paste, in Changing `unlock`, `delete_paste` and
--   `toggle_paste`, and in Reading `raw_paste`; its half after the row is read is `send_paste`, which
--   requests that race run on the row they hold.
--
-- Bounds: `u64` sums in ranges have their overflow test written out, `i64` arithmetic wraps around or
-- saturates as written, `refcount` is an INTEGER with its check. The pump runs on fuel, one more than the
-- bytes of the spool file, since every piece but the last takes at least one. Printing a number has fuel
-- above the number.
--
-- Parameters: the cipher, random bytes, `hex::decode`, `to_lowercase`, the `{:?}` of a string, `infer`,
-- UTF-8, hashes, legal header values, the environment, the answers of the file system and of S3. Not modelled: the S3
-- multipart protocol, lost connections to the database, the HTTP framework and templates, mail, metrics
-- and OIDC, which are calls of services and libraries, and the parts of src/routes beside the above.
mod Prelude
pub mod Text
pub mod ObjectCrypt
pub mod Storage
pub mod Errors
pub mod Range
pub mod Config
pub mod Ids
pub mod Accounts
pub mod Roles
pub mod Objects
pub mod RateLimit
pub mod Mime
pub mod Upload
pub mod Files
pub mod Sweep
pub mod Gc
pub mod Invites
pub mod Pastes
