-- ===== src/Files/Examples.antt =====
-- The theorems on files, at a sealed file of five bytes and a file that burns.
use uwuubox.Storage.Contract.{Holds, put_file-Holds}
use uwuubox.Accounts.Auth.{Argon2}
use uwuubox.Storage.Writing.{read_bytes}
use uwuubox.Range.{parse, satisfiable, full}
use uwuubox.Files.Fixtures.{file_row, world, erase, world-Counts, few_refs, safe_refs}
use uwuubox.Prelude.{
  ◌≡◌, refl, subst, Bool, true, false, [], ◌∷◌, Option, none, some, ok, codes, arith, bytes_eq,
  Bytes, sym, ◌∙◌, List,
}
use uwuubox.Text.{Text, parse_u64}
use uwuubox.Storage.Reading.{collect}
use uwuubox.Storage.{Store}
use uwuubox.Storage.Fixtures.{
  name, object, safe_name, clear, keyed_store, directory, directory-IsSink, nonce_base, spool,
  clear-IsAead, secret, written, served, keyed,
}
use uwuubox.Files.Rows.{FileRow, World, remove_file, find_file, Disk}
use uwuubox.Files.References.{refs_of}
use uwuubox.Files.Removal.{remove_file-Removes, Removes}
use uwuubox.Prelude.{guard, ◌>>◌, ◌==◌, length, Result, set, ◌>>=◌, ap}
use uwuubox.Errors.{stored, Fault, failed, internal}
use uwuubox.Range.{satisfiable}
use uwuubox.Ids.{strip_to_core}
use uwuubox.Files.Rows.{is_expired}
use uwuubox.Files.Access.{load_live_file, password_check}
use uwuubox.Files.Raw.{
  RawRequest, Headers, raw, download_headers, collect_all, take_once, burn, Answer,
}
use uwuubox.Files.Serving.{raw_sends, Sends}
use uwuubox.Range.Bounds.{IsSent, part}
use uwuubox.Files.Admission.{raw_sound, IsOpenTo}
use uwuubox.Files.Keys.{IsKeyed}
use uwuubox.Files.Burning.{
  Reaches-once, here, next, finish, gather, waiting, collected, Race, answers, settle, run, Settled,
  Phase,
}

remove_file-Removes_example :
    (w' : World) × (remove_file erase (codes "abcdefgh") (world false none) ≡ (ok true, w'))
    × Removes (codes "abcdefgh") (world false none) w'
unfolding refs_of find_file
remove_file-Removes_example =
    remove_file-Removes erase (λ key. refl) (codes "abcdefgh") (world false none)
      (world-Counts false none) few_refs safe_refs

abbrev argon2 : Argon2
argon2 = record { hash_with = λ salt pw. ok pw; verify_with = λ hash pw. some (bytes_eq hash pw) }

abbrev utf8 : Bytes → Option Text
utf8 b = some b

abbrev any_header : Text → Bool
any_header value = true

abbrev view : Disk → Store
view disk = keyed_store

abbrev request : RawRequest
request = record {
  segment = codes "abcdefgh.bin";
  password = none;
  range = some (some (codes "bytes=1-3"));
  session = λ entry. none;
}

abbrev headers : Headers
headers = record {
  content_type = codes "image/png";
  cache_control = codes "public, max-age=86400";
  content_disposition = none;
}

abbrev file : Bytes
file = 1 ∷ 2 ∷ 3 ∷ 4 ∷ 5 ∷ []

holds : Holds clear keyed_store name file
unfolding read_bytes
holds =
    put_file-Holds clear directory directory-IsSink 2 (omega arith) nonce_base name safe_name spool
      tt (omega arith) 5 clear-IsAead (omega arith) refl secret object written keyed_store served
      keyed (omega arith)

parsed : parse (some (codes "bytes=1-3")) 5 ≡ satisfiable 1 3
unfolding parse parse_u64
parsed = refl

found :
    load_live_file 50 (file_row false none ∷ []) (codes "abcdefgh.bin") ≡ ok (file_row false none)
unfolding load_live_file
found = refl

let_in : password_check argon2 (λ entry. none) none (file_row false none) ≡ ok tt
unfolding password_check
let_in = refl

headed : download_headers utf8 any_header (file_row false none) ≡ ok headers
unfolding download_headers
headed = refl

raw_sends_example :
    (answer : Answer) × (raw utf8 any_header clear view erase argon2 50 (world false none) request
      ≡ (ok answer, world false none))
    × Sends file headers (parse (some (codes "bytes=1-3")) 5) answer
raw_sends_example =
    raw_sends utf8 any_header clear view erase argon2 50 (world false none) request
      (file_row false none) found let_in refl headers headed file refl holds
      (some (codes "bytes=1-3")) refl (subst IsSent (sym parsed) (part 1 3))

sent :
    (answer : Answer) × (raw utf8 any_header clear view erase argon2 50 (world false none) request
      ≡ (ok answer, world false none))
    × Sends file headers (parse (some (codes "bytes=1-3")) 5) answer
sent =
    raw_sends utf8 any_header clear view erase argon2 50 (world false none) request
      (file_row false none) found let_in refl headers headed file refl holds
      (some (codes "bytes=1-3")) refl (subst IsSent (sym parsed) (part 1 3))

raw_sound_example :
    (row : FileRow) × (find_file (strip_to_core (codes "abcdefgh.bin")) (file_row false none ∷ [])
      ≡ some row)
    × (is_expired 50 row.expires_at ≡ false)
    × IsOpenTo argon2 (λ entry. none) none row
raw_sound_example =
    raw_sound utf8 any_header clear view erase argon2 50 (world false none) (world false none)
      request sent.0 sent.1

abbrev sized : Bytes → Result Fault Bytes
sized all =
    guard (length all == 5) (failed (internal (codes "stored object size mismatch"))) >> ok all

read_file :
    collect_all utf8 any_header clear view erase (world true none) (file_row true none) 5 ≡ ok file
unfolding collect_all
read_file =
    let (s, e, c) = holds.whole in
    ap (λ r. (stored r >>= λ s. stored (collect s)) >>= sized) e ∙ ap (λ r. stored r >>= sized) c

-- One request for everything and one for a part: the first has the bytes, the second runs through,
-- then the first goes on.
abbrev begun : List Phase
begun = waiting full ∷ waiting (satisfiable 1 3) ∷ []

abbrev overtaken : Race
overtaken = settle (set begun 0 (collected full file)) 1 (
    burn utf8 any_header clear view erase (world true none) (file_row true none) (satisfiable 1 3)
      5)

abbrev finished : Race
finished =
    settle overtaken.1 0
      (take_once utf8 any_header clear view erase overtaken.0 (file_row true none) full 5 file)

unique : IsKeyed (file_row true none ∷ [])
unfolding IsKeyed find_file
unique = (refl, tt)

Reaches-once_example : Settled (codes "abcdefgh") finished.0.files (answers finished.1)
Reaches-once_example =
    Reaches-once utf8 any_header clear view erase (file_row true none) 5
      (full ∷ satisfiable 1 3 ∷ []) (world true none) finished.0 finished.1 unique
      (next _ _
        (next _ _ (next _ _ here (gather (world true none) begun 0 full file refl read_file))
          (run (world true none) (set begun 0 (collected full file)) 1 (satisfiable 1 3) refl))
        (finish overtaken.0 overtaken.1 0 full file refl))

-- One of the two has the answer.
test_overtaken : answers finished.1 ≡ 1
unfolding burn take_once answers uwuubox.Storage.raw_get_range uwuubox.Storage.encryption_key
    uwuubox.ObjectCrypt.is_stream_sealed uwuubox.ObjectCrypt.parse_stream_header
    uwuubox.ObjectCrypt.Words.from_be_bytes uwuubox.ObjectCrypt.stream_chunk_count
    uwuubox.ObjectCrypt.open_chunk uwuubox.Text.strip_prefix uwuubox.Objects.count_down
test_overtaken = refl
