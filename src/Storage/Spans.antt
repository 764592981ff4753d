-- ===== src/Storage/Spans.antt =====
-- `get_range_stream` on an object sealed in chunks: only the chunks that the span meets are read.
use uwuubox.Prelude.{
  ℕ, zero, suc, ◌+◌, ◌-◌, ◌*◌, min, ◌^◌, ◌≤◌, ◌<◌, ◌≡◌, refl, ap, ◌∙◌, sym, List, [], ◌∷◌, ◌++◌,
  true, false, arith, Bytes, length, length-append, take, drop, ok, take_left, drop_left, drop-drop,
  length-drop, take-append_left, take-append_right, drop-append_left, take_all, Bool-cases, inl,
  inr, ltb, leb, append-nil, ◌&&◌, ◌==◌,
}
use uwuubox.Text.{Text}
use uwuubox.ObjectCrypt.{Aead, IsAead, seal_chunk, open_chunk, stream_header_len}
use uwuubox.Storage.{Store, Stream, raw_get_range_relaxed}
use uwuubox.Storage.Serving.{Serves}
use uwuubox.Storage.Chunks.{concat, wrap_all, IsChunked, IsChunked-tail, IsChunked-le}
use uwuubox.Storage.Reading.{v2_span_chunks, v2_span_round, send_span, collect}
use uwuubox.Storage.Streaming.{open_chunk-seal_chunk, length-seal_chunk}

-- What `collect` makes of a first item.
collect-cons :
    (c : Bytes) (rest : Stream) {more : Bytes}
    → collect rest ≡ ok more
    → collect (ok c ∷ rest) ≡ ok (c ++ more)
unfolding collect
collect-cons c rest e = rw e

collect-one : (c : Bytes) → collect (ok c ∷ []) ≡ ok c
unfolding collect
collect-one c = ap ok (append-nil c)

-- The span of a chunk and of what follows, by whether the chunk holds all of it.
send_span_last :
    (c rest : Bytes) (remaining trim : ℕ) (next : ℕ → ℕ → Stream)
    → trim + remaining ≤ length c
    → 0 < remaining
    → collect (send_span remaining trim next (ok c)) ≡ ok (take remaining (drop trim (c ++ rest)))
unfolding send_span
send_span_last c rest remaining trim next h p =
    let test : (ltb 0 trim && leb (length c) trim) ≡ false = ground arith in
    let n : min remaining (length c - trim) ≡ remaining = omega arith in
    let m : trim + remaining - trim ≡ remaining = omega arith in
    let z : (remaining - remaining == 0) ≡ true = ground arith in
    rw (test, n, m, z)
      (collect-one (take remaining (drop trim c))
        ∙ ap ok (
            sym (take-append_left remaining (drop trim c) rest (omega (arith, length-drop trim c)))
            ∙ ap (take remaining) (sym (drop-append_left trim c rest (omega arith)))))

send_span_more :
    (c rest : Bytes) (remaining trim : ℕ) (next : ℕ → ℕ → Stream)
    → trim < length c
    → length c < trim + remaining
    → collect (next (remaining - (length c - trim)) 0)
      ≡ ok (take (remaining - (length c - trim)) rest)
    → collect (send_span remaining trim next (ok c)) ≡ ok (take remaining (drop trim (c ++ rest)))
unfolding send_span
send_span_more c rest remaining trim next h p e =
    let test : (ltb 0 trim && leb (length c) trim) ≡ false = ground arith in
    let n : min remaining (length c - trim) ≡ length c - trim = omega arith in
    let m : trim + (length c - trim) - trim ≡ length c - trim = omega arith in
    let z : (remaining - (length c - trim) == 0) ≡ false = ground arith in
    let d : length (drop trim c) ≡ length c - trim = length-drop trim c in
    let whole : take (length c - trim) (drop trim c) ≡ drop trim c = take_all _ _ (omega arith) in
    rw (test, n, m, z, whole)
      (collect-cons (drop trim c) (next (remaining - (length c - trim)) 0) e
        ∙ ap (λ k. ok (drop trim c ++ take (remaining - k) rest)) (sym d)
        ∙ ap ok (
            sym (take-append_right remaining (drop trim c) rest (omega arith))
            ∙ ap (take remaining) (sym (drop-append_left trim c rest (omega arith)))))

full_of_more :
    (size : ℕ) (c : Bytes) (cs : List Bytes)
    → IsChunked size (c ∷ cs)
    → length c < length (c ++ concat cs)
    → length c ≡ size
full_of_more size c [] h lt = absurd (omega (arith, length-append c []))
full_of_more size c (d ∷ cs) h lt = h.0

-- The chunks that a span from inside chunk `i` on needs, and where they are.
pub record IsSkipped (size : ℕ) (wrap : ℕ → Bytes → Bytes) (index i : ℕ) (cs rest : List Bytes)
    : Type 0 where
  pub chunked : IsChunked size rest
  pub body :
      drop (i * (size + 16)) (concat (wrap_all wrap index cs))
      ≡ concat (wrap_all wrap (index + i) rest)
  pub plain : concat rest ≡ drop (i * size) (concat cs)

pub skip_chunks :
    (size : ℕ) (wrap : ℕ → Bytes → Bytes)
    (long : (j : ℕ) (c : Bytes) → length (wrap j c) ≡ length c + 16) (i index : ℕ) (cs : List Bytes)
    → IsChunked size cs
    → i * size < length (concat cs)
    → (rest : List Bytes) × IsSkipped size wrap index i cs rest
skip_chunks size wrap long zero index cs h lt =
    let z : 0 * (size + 16) ≡ 0 = omega arith in
    let z' : 0 * size ≡ 0 = omega arith in
    let z'' : index ≡ index + 0 = omega arith in
    (
      cs,
      record {
        chunked = h;
        body =
            ap (λ n. drop n (concat (wrap_all wrap index cs))) z
            ∙ ap (λ n. concat (wrap_all wrap n cs)) z'';
        plain = ap (λ n. drop n (concat cs)) (sym z');
      },
    )
skip_chunks size wrap long (suc i) index [] h lt = absurd (omega arith)
skip_chunks size wrap long (suc i) index (c ∷ cs) h lt =
    let total : length (c ++ concat cs) ≡ length c + length (concat cs) =
      length-append c (concat cs) in
    let at_most : length c ≤ size = IsChunked-le size c cs h in
    let full : length c ≡ size = full_of_more size c cs h (omega arith) in
    let (rest, skipped) =
      skip_chunks size wrap long i (index + 1) cs (IsChunked-tail size c cs h) (omega arith) in
    let tail = concat (wrap_all wrap (index + 1) cs) in
    let step : suc i * (size + 16) ≡ (size + 16) + i * (size + 16) = omega arith in
    let step' : suc i * size ≡ size + i * size = omega arith in
    let next : index + 1 + i ≡ index + suc i = omega arith in
    (
      rest,
      record {
        chunked = skipped.chunked;
        body =
            ap (λ n. drop n (wrap index c ++ tail)) step
            ∙ sym (drop-drop (i * (size + 16)) (size + 16) (wrap index c ++ tail))
            ∙ ap (drop (i * (size + 16)))
                (drop_left (size + 16) (wrap index c) tail (omega (arith, long index c)))
            ∙ skipped.body
            ∙ ap (λ n. concat (wrap_all wrap n rest)) next;
        plain =
            skipped.plain
            ∙ ap (drop (i * size)) (sym (drop_left size c (concat cs) full))
            ∙ drop-drop (i * size) size (c ++ concat cs)
            ∙ ap (λ n. drop n (c ++ concat cs)) (sym step');
      },
    )

module _ (a : Aead) (laws : IsAead a) where
  module _ (store : Store) (key : Text) (k base : Bytes) (size : ℕ) {object : Bytes}
      (serves : Serves store key object) (small : length object + size + 16 < 2 ^ 64) where
    abbrev wrap : ℕ → Bytes → Bytes
    wrap = seal_chunk a k base

    -- A read of one more full chunk than there may be returns the sealed chunk.
    take_sealed :
        (c : Bytes) (cs : List Bytes) (index : ℕ)
        → IsChunked size (c ∷ cs)
        → take (size + 16) (concat (wrap_all wrap index (c ∷ cs))) ≡ wrap index c
    take_sealed c [] index h =
        ap (take (size + 16)) (append-nil (wrap index c))
        ∙ take_all (size + 16) (wrap index c)
            (omega (arith, length-seal_chunk a laws k base index c))
    take_sealed c (d ∷ cs) index h =
        take_left (size + 16) (wrap index c) _
          (omega (arith, length-seal_chunk a laws k base index c))

    v2_span_round-cons :
        (index remaining trim : ℕ) (next : ℕ → ℕ → Stream) (sealed : Bytes)
        → 0 < length sealed
        → v2_span_round a k base index remaining trim next (ok sealed)
          ≡ send_span remaining trim next (open_chunk a k base index sealed)
    unfolding v2_span_round
    v2_span_round-cons index remaining trim next [] h = absurd (omega arith)
    v2_span_round-cons index remaining trim next (b ∷ bs) h = refl

    v2_span_round-sealed :
        (index remaining trim : ℕ) (next : ℕ → ℕ → Stream) (c : Bytes)
        → v2_span_round a k base index remaining trim next (ok (wrap index c))
          ≡ send_span remaining trim next (ok c)
    v2_span_round-sealed index remaining trim next c =
        v2_span_round-cons index remaining trim next (wrap index c)
          (omega (arith, length-seal_chunk a laws k base index c))
        ∙ ap (send_span remaining trim next) (open_chunk-seal_chunk a laws k base index c)

    abbrev offset_of : ℕ → ℕ
    offset_of index = stream_header_len + index * (size + 16)

    -- The read for a chunk returns the sealed chunk.
    relaxed-sealed :
        (c : Bytes) (cs : List Bytes) (index : ℕ)
        → IsChunked size (c ∷ cs)
        → drop (offset_of index) object ≡ concat (wrap_all wrap index (c ∷ cs))
        → raw_get_range_relaxed store key (offset_of index) (size + 16) ≡ ok (wrap index c)
    relaxed-sealed c cs index h e =
        let rest = concat (wrap_all wrap (index + 1) cs) in
        let n : length object - offset_of index ≡ length (wrap index c) + length rest =
          sym (length-drop (offset_of index) object)
          ∙ ap length e
          ∙ length-append (wrap index c) rest in
        let m : length (wrap index c) ≡ length c + 16 = length-seal_chunk a laws k base index c in
        serves.relaxed (offset_of index) (size + 16) (omega arith) (omega arith) (omega arith)
        ∙ ap (λ t. ok (take (size + 16) t)) e
        ∙ ap ok (take_sealed c cs index h)

    -- After a full chunk the object goes on with the next sealed chunk.
    drop-next :
        (c : Bytes) (cs : List Bytes) (index : ℕ)
        → length c ≡ size
        → drop (offset_of index) object ≡ concat (wrap_all wrap index (c ∷ cs))
        → drop (offset_of (index + 1)) object ≡ concat (wrap_all wrap (index + 1) cs)
    drop-next c cs index full e =
        let next : offset_of (index + 1) ≡ offset_of index + (size + 16) = grind arith in
        ap (λ n. drop n object) next
        ∙ sym (drop-drop (size + 16) (offset_of index) object)
        ∙ ap (drop (size + 16)) e
        ∙ drop_left (size + 16) (wrap index c) (concat (wrap_all wrap (index + 1) cs))
            (omega (arith, length-seal_chunk a laws k base index c))

    -- From any chunk on, the span that the loop sends is the span of the remaining plaintext.
    pub v2_span_chunks-eq :
        (cs : List Bytes) (count index remaining trim : ℕ)
        → 0 < size
        → IsChunked size cs
        → drop (offset_of index) object ≡ concat (wrap_all wrap index cs)
        → trim < size
        → 0 < remaining
        → trim + remaining ≤ length (concat cs)
        → trim + remaining ≤ count * size
        → collect (v2_span_chunks a store key k base size count index remaining trim)
          ≡ ok (take remaining (drop trim (concat cs)))
    unfolding v2_span_chunks
    v2_span_chunks-eq [] count index remaining trim s h e t r le fuel = absurd (omega arith)
    v2_span_chunks-eq (c ∷ cs) zero index remaining trim s h e t r le fuel = absurd (omega arith)
    v2_span_chunks-eq (c ∷ cs) (suc count) index remaining trim s h e t r le fuel =
        rw (relaxed-sealed c cs index h e) (
          rw
            (v2_span_round-sealed index remaining trim
              (v2_span_chunks a store key k base size count (index + 1)) c)
            (elim (Bool-cases (leb (trim + remaining) (length c))) [
              | inl fits ↦
                  send_span_last c (concat cs) remaining trim
                    (v2_span_chunks a store key k base size count (index + 1)) (ground arith) r
              | inr over ↦
                  let past : length c < trim + remaining = ground arith in
                  let total : length (c ++ concat cs) ≡ length c + length (concat cs) =
                    length-append c (concat cs) in
                  let full : length c ≡ size = full_of_more size c cs h (omega arith) in
                  let fewer : remaining - (length c - trim) ≤ count * size = grind arith in
                  send_span_more c (concat cs) remaining trim
                    (v2_span_chunks a store key k base size count (index + 1)) (omega arith) past
                    (v2_span_chunks-eq cs count (index + 1) (remaining - (length c - trim)) 0 s
                      (IsChunked-tail size c cs h) (drop-next c cs index full e) s (omega arith)
                      (omega arith) (omega arith))
            ]))
