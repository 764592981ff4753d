-- ===== src/Storage/Streaming.antt =====
-- `get_stream` on an object sealed in chunks.
use uwuubox.Prelude.{
  ℕ, ◌+◌, ◌-◌, ◌*◌, min, ◌≤◌, ◌<◌, ◌≡◌, refl, ap, ◌∙◌, sym, List, [], ◌∷◌, ◌++◌, map, true, arith,
  Bytes, length, length-append, take, drop, ok, take_left, drop_left, drop-drop, length-drop, ◌==◌,
}
use uwuubox.Text.{Text}
use uwuubox.ObjectCrypt.{Aead, IsAead, seal_chunk, open_chunk, stream_chunk_count}
use uwuubox.Storage.{Store, raw_get_range}
use uwuubox.Storage.Serving.{Serves}
use uwuubox.Storage.Chunks.{concat, wrap_all, IsChunked, IsChunked-tail}
use uwuubox.Storage.Reading.{v2_chunks, collect}

pub length-concat :
    (size : ℕ) (cs : List Bytes)
    → 0 < size
    → IsChunked size cs
    → (length (concat cs) ≤ length cs * size) × (length cs * size < length (concat cs) + size)
length-concat size [] p h = (omega arith, omega arith)
length-concat size (c ∷ []) p h = omega (arith, length-append c [])
length-concat size (c ∷ d ∷ cs) p h =
    let ih = length-concat size (d ∷ cs) p h.1 in omega (arith, length-append c (d ++ concat cs))

-- The chunk count computed from the length of the plaintext is the number of chunks.
pub stream_chunk_count-concat :
    (size : ℕ) (cs : List Bytes)
    → 0 < size
    → IsChunked size cs
    → stream_chunk_count (length (concat cs)) size ≡ length cs
unfolding stream_chunk_count
stream_chunk_count-concat size cs p h = let bounds = length-concat size cs p h in grind arith

min-chunk :
    (size : ℕ) (c : Bytes) (cs : List Bytes)
    → IsChunked size (c ∷ cs)
    → min (length (c ++ concat cs)) size ≡ length c
min-chunk size c [] h = omega (arith, length-append c [])
min-chunk size c (d ∷ cs) h = omega (arith, length-append c (d ++ concat cs))

pub collect-map_ok : (cs : List Bytes) → collect (map ok cs) ≡ ok (concat cs)
unfolding collect
collect-map_ok [] = refl
collect-map_ok (c ∷ cs) = rw (collect-map_ok cs)

same_length : (b : Bytes) (n : ℕ) → length b ≡ n → (length b == n) ≡ true
same_length b n h = ground arith

length-rest : (c rest : Bytes) → length (c ++ rest) - length c ≡ length rest
length-rest c rest = omega (arith, length-append c rest)

module _ (a : Aead) (laws : IsAead a) where
  pub open_chunk-seal_chunk :
      (key base : Bytes) (index : ℕ) (pt : Bytes)
      → open_chunk a key base index (seal_chunk a key base index pt) ≡ ok pt
  unfolding open_chunk seal_chunk
  open_chunk-seal_chunk key base index pt = rw laws.decrypt-encrypt

  pub length-seal_chunk :
      (key base : Bytes) (index : ℕ) (pt : Bytes)
      → length (seal_chunk a key base index pt) ≡ length pt + 16
  unfolding seal_chunk
  length-seal_chunk key base index pt = laws.length-encrypt _ _ pt

  module _ (store : Store) (key : Text) (k base : Bytes) (size : ℕ) {object : Bytes}
      (serves : Serves store key object) where
    abbrev wrap : ℕ → Bytes → Bytes
    wrap = seal_chunk a k base

    -- From any chunk on, the walk sends the chunks.
    pub v2_chunks-eq-map :
        (cs : List Bytes) (index off : ℕ)
        → IsChunked size cs
        → drop off object ≡ concat (wrap_all wrap index cs)
        → off ≤ length object
        → v2_chunks a store key k base size (length cs) index off (length (concat cs)) ≡ map ok cs
    unfolding v2_chunks
    v2_chunks-eq-map [] index off h e le = refl
    v2_chunks-eq-map (c ∷ cs) index off h e le =
        let sealed = wrap index c in
        let rest = concat (wrap_all wrap (index + 1) cs) in
        let long : length sealed ≡ length c + 16 = length-seal_chunk k base index c in
        let n : length object - off ≡ length sealed + length rest =
          sym (length-drop off object) ∙ ap length e ∙ length-append sealed rest in
        let got : raw_get_range store key off (length c + 16) ≡ ok sealed =
          serves.exact off (length c + 16) (omega arith)
          ∙ ap (λ t. ok (take (length c + 16) t)) e
          ∙ ap ok (take_left (length c + 16) sealed rest long) in
        let later : drop (off + (length c + 16)) object ≡ rest =
          sym (drop-drop (length c + 16) off object)
          ∙ ap (drop (length c + 16)) e
          ∙ drop_left (length c + 16) sealed rest long in
        let ih =
          v2_chunks-eq-map cs (index + 1) (off + (length c + 16)) (IsChunked-tail size c cs h) later
            (omega arith) in
        rw (
          min-chunk size c cs h,
          got,
          same_length sealed (length c + 16) long,
          open_chunk-seal_chunk k base index c,
          length-rest c (concat cs),
          ih,
        )
