-- ===== src/Storage/Pumping.antt =====
-- The pump of `put_file`: whatever the sizes of the single reads, the pieces are the full chunks of
-- the spooled bytes.
use uwuubox.Prelude.{
  ℕ, zero, suc, ◌+◌, ◌-◌, ◌≤◌, ◌<◌, ◌≡◌, refl, ap, ◌∙◌, sym, List, [], ◌∷◌, ◌++◌, none, arith, ltb,
  leb, Bytes, length, take, drop, Bool-cases, inl, inr, take-append_right, drop-append_right,
  take-append_left, drop-append_left, take-nil, drop-nil, length-drop, take-append-drop,
  length-take,
}
use uwuubox.Storage.Writing.{
  Read, chunk, read_error, Filled, fill, Pumped, pump, read_bytes, pump_round,
}
use uwuubox.Storage.Chunks.{concat, wrap_all, IsChunked, IsChunked-cons}

-- Reads without errors; only the end of the file reads empty.
abbrev pub IsClean : List Read → Type 0
IsClean [] = Unit
IsClean (chunk [] ∷ rs) = ⊥
IsClean (chunk (b ∷ bs) ∷ rs) = IsClean rs
IsClean (read_error m ∷ rs) = ⊥

-- A full or final buffer: the next bytes of the file, whatever the single reads returned.
record IsFill (want : ℕ) (reads : List Read) (r : Filled) : Type 0 where
  got : r.got ≡ take want (read_bytes reads)
  rest : read_bytes r.rest ≡ drop want (read_bytes reads)
  clean : IsClean r.rest
  fault : r.fault ≡ none

IsClean-chunk : (c : Bytes) (rs : List Read) → 0 < length c → IsClean rs → IsClean (chunk c ∷ rs)
IsClean-chunk [] rs p h = absurd (omega arith)
IsClean-chunk (b ∷ bs) rs p h = h

fill-IsFill : (want : ℕ) (reads : List Read) → IsClean reads → IsFill want reads (fill want reads)
unfolding fill read_bytes
fill-IsFill want [] h = record {
  got = sym (take-nil want);
  rest = sym (drop-nil want);
  clean = tt;
  fault = refl;
}
fill-IsFill want (chunk [] ∷ rs) h = absurd h
fill-IsFill want (read_error m ∷ rs) h = absurd h
fill-IsFill want (chunk (b ∷ bs) ∷ rs) h = elim (Bool-cases (leb (length (b ∷ bs)) want)) [
  | inl fits ↦
      let le : length (b ∷ bs) ≤ want = ground arith in
      let ih = fill-IsFill (want - length (b ∷ bs)) rs h in
      rw fits (record {
        got =
            ap (λ t. (b ∷ bs) ++ t) ih.got
            ∙ sym (take-append_right want (b ∷ bs) (read_bytes rs) le);
        rest = ih.rest ∙ sym (drop-append_right want (b ∷ bs) (read_bytes rs) le);
        clean = ih.clean;
        fault = ih.fault;
      })
  | inr over ↦
      let le : want ≤ length (b ∷ bs) = ground arith in
      rw over (record {
        got = sym (take-append_left want (b ∷ bs) (read_bytes rs) le);
        rest = sym (drop-append_left want (b ∷ bs) (read_bytes rs) le);
        clean = IsClean-chunk (drop want (b ∷ bs)) rs (ground (arith, length-drop want (b ∷ bs))) h;
        fault = refl;
      })
]

-- What the pump sends, as chunks of the file.
pub record IsPumped (size : ℕ) (wrap : ℕ → Bytes → Bytes) (index : ℕ) (file : Bytes) (p : Pumped)
    : Type 0 where
  pub chunks : List Bytes
  pub sent : p.sent ≡ wrap_all wrap index chunks
  pub whole : concat chunks ≡ file
  pub chunked : IsChunked size chunks
  pub no_fault : p.fault ≡ none

-- One round, from what it read and what the later rounds send.
pump_round-IsPumped :
    (size : ℕ) (wrap : ℕ → Bytes → Bytes) (index : ℕ) (got rest : Bytes) {others : Pumped}
    → length got ≤ size
    → 0 < size
    → (length got < size → rest ≡ [])
    → (0 < length got → IsPumped size wrap (index + 1) rest others)
    → (got ≡ [] → rest ≡ [])
    → IsPumped size wrap index (got ++ rest) (pump_round size got (wrap index got) none others)
unfolding pump_round
pump_round-IsPumped size wrap index [] rest le p short later e = record {
  chunks = [];
  sent = refl;
  whole = sym (e refl);
  chunked = tt;
  no_fault = refl;
}
pump_round-IsPumped size wrap index (b ∷ bs) rest le p short later e =
    elim (Bool-cases (ltb (length (b ∷ bs)) size)) [
      | inl small ↦ rw small (record {
        chunks = (b ∷ bs) ∷ [];
        sent = refl;
        whole = ap (λ t. (b ∷ bs) ++ t) (sym (short (ground arith)));
        chunked = omega arith;
        no_fault = refl;
      })
      | inr full ↦
          let more = later (omega arith) in
          rw full (record {
            chunks = (b ∷ bs) ∷ more.chunks;
            sent = ap (λ t. wrap index (b ∷ bs) ∷ t) more.sent;
            whole = ap (λ t. (b ∷ bs) ++ t) more.whole;
            chunked = IsChunked-cons size (b ∷ bs) more.chunks p (ground arith) more.chunked;
            no_fault = more.no_fault;
          })
    ]

nil_of_length : (xs : Bytes) → length xs ≡ 0 → xs ≡ []
nil_of_length [] h = refl
nil_of_length (x ∷ xs) h = absurd (omega arith)

-- With fuel above the file's length the pump sends all of it, in full chunks but for the last.
pub pump-IsPumped :
    (f size : ℕ) (wrap : ℕ → Bytes → Bytes) (index : ℕ) (reads : List Read)
    → 0 < size
    → IsClean reads
    → length (read_bytes reads) < f
    → IsPumped size wrap index (read_bytes reads) (pump f size wrap index reads)
unfolding pump
pump-IsPumped zero size wrap index reads p h lt = absurd (omega arith)
pump-IsPumped (suc f) size wrap index reads p h lt =
    let r = fill size reads in
    let filled : IsFill size reads r = fill-IsFill size reads h in
    let file = read_bytes reads in
    let got_len : length r.got ≡ length (take size file) = ap length filled.got in
    let rest_len : length (read_bytes r.rest) ≡ length (drop size file) = ap length filled.rest in
    let split : r.got ++ read_bytes r.rest ≡ file =
      ap (λ t. t ++ read_bytes r.rest) filled.got
      ∙ ap (λ t. take size file ++ t) filled.rest
      ∙ take-append-drop size file in
    rw (filled.fault) (
      rw (← split) (
        pump_round-IsPumped size wrap index r.got (read_bytes r.rest)
          (omega (arith, length-take size file)) p
          (λ s.
            nil_of_length (read_bytes r.rest)
              (omega (arith, length-take size file, length-drop size file)))
          (λ s.
            pump-IsPumped f size wrap (index + 1) r.rest p filled.clean
              (omega (arith, length-take size file, length-drop size file)))
          (λ e. nil_of_length (read_bytes r.rest) (
            let z : length r.got ≡ 0 = ap length e in
            omega (arith, length-take size file, length-drop size file)))))
