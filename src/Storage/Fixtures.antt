-- ===== src/Storage/Fixtures.antt =====
-- A file of five bytes in chunks of two, sealed by a cipher that only adds a tag, and stores with it.
use uwuubox.Text.Cutting.{strip_prefix-append, strip_prefix_sound}
use uwuubox.Storage.Chunks.{concat}
use uwuubox.ObjectCrypt.Words.{be_bytes}
use uwuubox.Storage.Reading.{collect}
use uwuubox.Storage.Writing.{Sink, Read, put_file_sized, chunk}
use uwuubox.Text.{Text, strip_prefix}
use uwuubox.Storage.Serving.{Serves, local-Serves}
use uwuubox.Storage.RoundTrip.{IsSink, stored}
use uwuubox.Storage.{Fs, encryption_key, is_safe_key, Store, found, send_pieces, local}
use uwuubox.ObjectCrypt.{Aead, magic_v2, IsAead, stream_header, seal_chunk, stream_nonce}
use uwuubox.Prelude.{
  ◌≡◌, List, Bytes, replicate, codes, some, none, true, refl, ok, ap, append-nil, [], ◌++◌, ◌∷◌,
  arith,
}

abbrev pub tag : Bytes
tag = replicate 16 0

-- A cipher that only puts a tag in front meets the laws.
abbrev pub clear : Aead
clear = record {
  encrypt = λ key nonce pt. tag ++ pt;
  decrypt = λ key nonce ct. strip_prefix tag ct;
}

pub clear-IsAead : IsAead clear
clear-IsAead = record {
  decrypt-encrypt = λ key nonce pt. strip_prefix-append tag pt;
  length-encrypt = λ key nonce pt. omega arith;
  encrypt-decrypt = λ key nonce ct pt h. strip_prefix_sound tag ct h;
}

abbrev pub directory : Sink
directory = record { raw_put = stored; put_parts = λ ps. stored (concat ps) }

pub directory-IsSink : IsSink directory
directory-IsSink = record { whole = λ b. refl; parts = λ ps. refl }

abbrev pub name : Text
name = codes "files/abcdefgh.bin"

abbrev pub secret : Bytes
secret = replicate 32 7

abbrev pub nonce_base : Bytes
nonce_base = replicate 16 9

abbrev pub spool : List Read
spool = chunk (1 ∷ []) ∷ chunk (2 ∷ 3 ∷ 4 ∷ []) ∷ chunk (5 ∷ []) ∷ []

abbrev pub object : Bytes
object =
    magic_v2
    ++ (0 ∷ 0 ∷ 0 ∷ 2 ∷ [])
    ++ nonce_base
    ++ tag
    ++ (1 ∷ 2 ∷ [])
    ++ tag
    ++ (3 ∷ 4 ∷ [])
    ++ tag
    ++ 5 ∷ []

pub safe_name : is_safe_key name ≡ true
unfolding is_safe_key
safe_name = refl

pub written : put_file_sized clear directory 2 (some secret) nonce_base name spool 5 ≡ stored object
unfolding put_file_sized is_safe_key stream_header be_bytes seal_chunk stream_nonce
written = refl

abbrev pub disk : Bytes → Fs
disk b = record { open_file = λ key. found b; pieces = λ key. ok b ∷ [] }

abbrev pub keyed_store : Store
keyed_store = local (disk object) (some secret)

abbrev pub open_store : Bytes → Store
open_store b = local (disk b) none

pub disk-pieces : (b : Bytes) → collect (send_pieces ((disk b).pieces name)) ≡ ok b
unfolding collect send_pieces
disk-pieces b = ap ok (append-nil b)

pub served : Serves keyed_store name object
served = local-Serves (disk object) (some secret) name object safe_name refl (disk-pieces object)

pub open_served : (b : Bytes) → Serves (open_store b) name b
open_served b = local-Serves (disk b) none name b safe_name refl (disk-pieces b)

pub keyed : encryption_key keyed_store ≡ some secret
unfolding encryption_key
keyed = refl

pub unkeyed : (b : Bytes) → encryption_key (open_store b) ≡ none
unfolding encryption_key
unkeyed b = refl
