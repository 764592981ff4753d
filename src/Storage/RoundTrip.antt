-- ===== src/Storage/RoundTrip.antt =====
-- What `put_file` writes is what `get_stream` and `get_range_stream` read back.
use native.Mathlib.Nat.{mod-lt, div-add-mod', add-mul}
use uwuubox.Storage.Reading.{
  get_range_stream, get_stream, collect, v2_span_chunks, get, decrypt_if_needed,
}
use uwuubox.ObjectCrypt.Framing.{length-stream_header, parse_stream_header-stream_header}
use uwuubox.Storage.Serving.{Serves}
use uwuubox.Storage.Pumping.{IsClean, pump-IsPumped}
use uwuubox.ObjectCrypt.{
  Aead, IsAead, stream_header, base_len, is_stream_sealed, magic_v2, seal_chunk,
  parse_stream_header, stream_header_len, stream_chunk_count, is_encrypted,
}
use uwuubox.Prelude.{
  ℕ, Bytes, List, some, ◌≡◌, ◌<◌, ok, ◌≢◌, [], length, arith, none, ◌∷◌, ◌++◌, ◌∙◌, ap, Option, sym,
  append-nil, true, append_assoc, refl, take, ◌≤◌, take_left, ◌*◌, suc, drop, drop_left, ◌+◌,
  length-append, map, ◌^◌, slice, ◌/◌, ◌-◌, ◌==◌, false, leb, ◌%◌, length-drop, drop-drop,
}
use uwuubox.Storage.{Store, Text, is_safe_key, encryption_key, Stream, raw_get_range}
use uwuubox.Storage.Writing.{
  Read, Sink, Written, write_pieces, put_file_sized, read_bytes, wrap_piece, header_of,
}
use uwuubox.Storage.Chunks.{concat, wrap_all, IsChunked}
use uwuubox.Storage.Streaming.{
  v2_chunks-eq-map, collect-map_ok, stream_chunk_count-concat, length-seal_chunk,
}
use uwuubox.Storage.Spans.{v2_span_chunks-eq, skip_chunks}

abbrev pub stored : Bytes → Written
stored b = record { object = some b; result = ok tt }

-- A backend that writes without failing: the parts of an object end up one after the other.
pub record IsSink (sink : Sink) : Type 0 where
  pub whole : (b : Bytes) → sink.raw_put b ≡ stored b
  pub parts : (ps : List Bytes) → sink.put_parts ps ≡ stored (concat ps)

-- The object of a file: the header, if any, and its wrapped chunks.
pub record IsObjectOf (size : ℕ) (wrap : ℕ → Bytes → Bytes) (header file object : Bytes)
    : Type 0 where
  pub chunks : List Bytes
  pub whole : concat chunks ≡ file
  pub chunked : IsChunked size chunks
  pub layout : object ≡ header ++ concat (wrap_all wrap 0 chunks)

write_pieces-stored :
    (sink : Sink) (header : Bytes) (pt_len : ℕ) (pieces : List Bytes)
    → IsSink sink
    → pieces ≢ []
    → write_pieces sink header pt_len (record { sent = pieces; fault = none })
      ≡ stored (header ++ concat pieces)
unfolding write_pieces
write_pieces-stored sink header pt_len [] ok_sink ne = absurd (ne refl)
write_pieces-stored sink header pt_len (p ∷ []) ok_sink ne =
    ok_sink.whole (header ++ p) ∙ ap (λ t. stored (header ++ t)) (sym (append-nil p))
write_pieces-stored sink header pt_len (p ∷ q ∷ ps) ok_sink ne =
    ok_sink.parts ((header ++ p) ∷ q ∷ ps) ∙ ap stored (append_assoc header p (q ++ concat ps))

wrap_all-ne-nil :
    (wrap : ℕ → Bytes → Bytes) (cs : List Bytes) → 0 < length (concat cs) → wrap_all wrap 0 cs ≢ []
wrap_all-ne-nil wrap [] h e = absurd (omega arith)
wrap_all-ne-nil wrap (c ∷ cs) h e = cc

module _ (a : Aead) (sink : Sink) (works : IsSink sink) where
  -- On a backend whose writes do not fail, for a safe key and a spool file that is not empty and
  -- reads without errors, `put_file` reports success, and the object under the key is the header
  -- followed by the file's chunks, all full but the last, each sealed under its index if there is
  -- a key.
  pub put_file_sized-IsObjectOf :
      (size : ℕ) (encryption_key : Option Bytes) (base : Bytes) (key : Text) (reads : List Read)
      (pt_len : ℕ)
      → 0 < size
      → is_safe_key key ≡ true
      → IsClean reads
      → 0 < length (read_bytes reads)
      → (object : Bytes) × (put_file_sized a sink size encryption_key base key reads pt_len
          ≡ stored object)
        × IsObjectOf size
            (wrap_piece a encryption_key base)
            (header_of size encryption_key base)
            (read_bytes reads)
            object
  unfolding put_file_sized
  put_file_sized-IsObjectOf size encryption_key base key reads pt_len p safe clean nonempty =
      let header = header_of size encryption_key base in
      let wrap = wrap_piece a encryption_key base in
      let pumped =
        pump-IsPumped (suc (length (read_bytes reads))) size wrap 0 reads p clean (omega arith) in
      let len : length (concat pumped.chunks) ≡ length (read_bytes reads) =
        ap length pumped.whole in
      (
        header ++ concat (wrap_all wrap 0 pumped.chunks),
        rw safe (
            ap (write_pieces sink header pt_len)
              (λ i. record { sent = pumped.sent i; fault = pumped.no_fault i })
            ∙ write_pieces-stored sink header pt_len (wrap_all wrap 0 pumped.chunks) works
                (wrap_all-ne-nil wrap pumped.chunks (omega arith))),
        record {
          chunks = pumped.chunks;
          whole = pumped.whole;
          chunked = pumped.chunked;
          layout = refl;
        },
      )

-- The first bytes of an object with a v2 header.
take-header :
    (size : ℕ) (base rest : Bytes)
    → length base ≡ base_len
    → take 24 (stream_header size base ++ rest) ≡ stream_header size base
take-header size base rest h =
    take_left 24 (stream_header size base) rest (length-stream_header size base h)

take-magic : (size : ℕ) (base rest : Bytes) → take 4 (stream_header size base ++ rest) ≡ magic_v2
unfolding stream_header
take-magic size base rest = refl

magic_v2-is_stream_sealed : is_stream_sealed magic_v2 ≡ true
unfolding is_stream_sealed
magic_v2-is_stream_sealed = refl

sub_mul : (a b m : ℕ) → b ≤ a → (a - b) * m + b * m ≡ a * m
sub_mul a b m h =
    let e : a - b + b ≡ a = omega arith in sym (add-mul (a - b) b m) ∙ ap (λ t. t * m) e

-- The rounds of the walk over a span, from the chunk of its first byte to that of its last.
span_rounds :
    (offset n size : ℕ)
    → 0 < size
    → 0 < n
    → offset % size + n ≤ ((offset + (n - 1)) / size + 1 - offset / size) * size
span_rounds offset n size s p =
    let last = (offset + (n - 1)) / size in
    let first = offset / size in
    let a : first * size + offset % size ≡ offset = div-add-mod' offset size in
    let b : last * size + (offset + (n - 1)) % size ≡ offset + (n - 1) =
      div-add-mod' (offset + (n - 1)) size in
    let c : (offset + (n - 1)) % size < size = mod-lt (offset + (n - 1)) s in
    let le : first ≤ last = grind arith in
    let d : (last + 1 - first) * size + first * size ≡ (last + 1) * size =
      sub_mul (last + 1) first size (omega arith) in
    omega arith

length-wrap_all :
    (a : Aead) (laws : IsAead a) (k base : Bytes) (index : ℕ) (cs : List Bytes)
    → length (concat cs) ≤ length (concat (wrap_all (seal_chunk a k base) index cs))
length-wrap_all a laws k base index [] = omega arith
length-wrap_all a laws k base index (c ∷ cs) = omega (
  arith,
  length-wrap_all a laws k base (index + 1) cs,
  length-append c (concat cs),
  length-append (seal_chunk a k base index c)
      (concat (wrap_all (seal_chunk a k base) (index + 1) cs)),
  length-seal_chunk a laws k base index c,
)

module _ (a : Aead) (laws : IsAead a) (store : Store) (key : Text) (k base : Bytes) (size : ℕ)
    (pos : 0 < size) (bound : size ≤ 64 * 1024 * 1024) (base_16 : length base ≡ base_len)
    {file object : Bytes}
    (of_file : IsObjectOf size (seal_chunk a k base) (stream_header size base) file object)
    (serves : Serves store key object) (keyed : encryption_key store ≡ some k) where
  abbrev sealed : Bytes
  sealed = concat (wrap_all (seal_chunk a k base) 0 of_file.chunks)

  long : length object ≡ 24 + length sealed
  long =
      ap length of_file.layout
      ∙ length-append (stream_header size base) sealed
      ∙ ap (λ n. n + length sealed) (length-stream_header size base base_16)

  probe-eq : raw_get_range store key 0 4 ≡ ok magic_v2
  probe-eq =
      serves.exact 0 4 (omega (arith, long))
      ∙ ap (λ t. ok (take 4 t)) of_file.layout
      ∙ ap ok (take-magic size base sealed)

  header-eq : raw_get_range store key 0 stream_header_len ≡ ok (stream_header size base)
  header-eq =
      serves.exact 0 24 (omega (arith, long))
      ∙ ap (λ t. ok (take 24 t)) of_file.layout
      ∙ ap ok (take-header size base sealed base_16)

  parsed : parse_stream_header (stream_header size base) ≡ ok (size, base)
  parsed = parse_stream_header-stream_header size base pos bound base_16

  body-eq : drop 24 object ≡ sealed
  body-eq =
      ap (drop 24) of_file.layout
      ∙ drop_left 24 (stream_header size base) sealed (length-stream_header size base base_16)

  get_stream-eq-map : get_stream a store key (length file) ≡ ok (map ok of_file.chunks)
  unfolding get_stream
  get_stream-eq-map =
      let n : stream_chunk_count (length file) size ≡ length of_file.chunks =
        ap (λ t. stream_chunk_count (length t) size) (sym of_file.whole)
        ∙ stream_chunk_count-concat size of_file.chunks pos of_file.chunked in
      rw (probe-eq, keyed, magic_v2-is_stream_sealed, header-eq, parsed, n)
        (rw (← of_file.whole) (
          ap ok (
            v2_chunks-eq-map a laws store key k base size serves of_file.chunks 0 24 of_file.chunked
              body-eq (omega (arith, long)))))

  -- Streaming a sealed object sends the whole file.
  pub get_stream-of_file :
      (s : Stream) × (get_stream a store key (length file) ≡ ok s) × (collect s ≡ ok file)
  get_stream-of_file = (
    map ok of_file.chunks,
    get_stream-eq-map,
    collect-map_ok of_file.chunks ∙ ap ok of_file.whole,
  )

  long_file : length file ≤ length object
  long_file =
      let e : length file ≡ length (concat of_file.chunks) = ap length (sym of_file.whole) in
      omega (arith, long, length-wrap_all a laws k base 0 of_file.chunks)

  span-eq :
      (offset n : ℕ)
      → 0 < n
      → offset + n ≤ length file
      → length object + size + 16 < 2 ^ 64
      → collect (
          v2_span_chunks a store key k base size
            ((offset + (n - 1)) / size + 1 - offset / size)
            (offset / size)
            n
            (offset % size))
        ≡ ok (slice offset (offset + n) file)
  span-eq offset n p le small =
      let first = offset / size in
      let split : first * size + offset % size ≡ offset = div-add-mod' offset size in
      let total : length (concat of_file.chunks) ≡ length file = ap length of_file.whole in
      let (rest, skipped) =
        skip_chunks size (seal_chunk a k base) (length-seal_chunk a laws k base) first 0
          of_file.chunks of_file.chunked (omega arith) in
      let plain : concat rest ≡ drop (first * size) file =
        skipped.plain ∙ ap (drop (first * size)) of_file.whole in
      let rest_len : length (concat rest) ≡ length file - first * size =
        ap length plain ∙ length-drop (first * size) file in
      let z : 0 + first ≡ first = omega arith in
      let body : drop (24 + first * (size + 16)) object
          ≡ concat (wrap_all (seal_chunk a k base) first rest) =
        sym (drop-drop (first * (size + 16)) 24 object)
        ∙ ap (drop (first * (size + 16))) body-eq
        ∙ skipped.body
        ∙ ap (λ i. concat (wrap_all (seal_chunk a k base) i rest)) z in
      let m : offset + n - offset ≡ n = omega arith in
      v2_span_chunks-eq a laws store key k base size serves small rest
        ((offset + (n - 1)) / size + 1 - first) first n (offset % size) pos skipped.chunked body
        (mod-lt offset pos) p (omega arith) (span_rounds offset n size pos p)
      ∙ ap (λ t. ok (take n (drop (offset % size) t))) plain
      ∙ ap (λ t. ok (take n t))
          (drop-drop (offset % size) (first * size) file ∙ ap (λ i. drop i file) split)
      ∙ ap (λ i. ok (take i (drop offset file))) (sym m)

  -- Streaming a range of a sealed object sends the bytes of the file in that range.
  pub get_range_stream-of_file :
      (offset n : ℕ)
      → 0 < n
      → offset + n ≤ length file
      → length object + size + 16 < 2 ^ 64
      → (s : Stream) × (get_range_stream a store key offset n ≡ ok s)
        × (collect s ≡ ok (slice offset (offset + n) file))
  unfolding get_range_stream
  get_range_stream-of_file offset n p le small =
      let first = offset / size in
      let rounds = (offset + (n - 1)) / size + 1 - first in
      let some_n : (n == 0) ≡ false = ground arith in
      let fits : leb (2 ^ 64) (offset + (n - 1)) ≡ false = ground (arith, long_file) in
      (
        v2_span_chunks a store key k base size rounds first n (offset % size),
        rw (some_n, probe-eq, keyed, magic_v2-is_stream_sealed, header-eq, parsed, fits),
        span-eq offset n p le small,
      )

  is_encrypted-object : is_encrypted object ≡ false
  unfolding is_encrypted
  is_encrypted-object =
      let e : take 4 object ≡ magic_v2 = ap (take 4) of_file.layout ∙ take-magic size base sealed in
      rw e (ground (arith, long))

  -- `get` returns the sealed bytes of an object that is sealed in chunks.
  pub get-of_file : (get a store key ≡ ok object) × (object ≢ file)
  unfolding get decrypt_if_needed
  get-of_file = (
    rw (serves.whole, is_encrypted-object),
    λ e.
        let same : length object ≡ length file = ap length e in
        let short : length file ≡ length (concat of_file.chunks) = ap length (sym of_file.whole) in
        omega (arith, long, length-wrap_all a laws k base 0 of_file.chunks),
  )
