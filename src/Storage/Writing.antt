-- ===== src/Storage/Writing.antt =====
-- The writing side of src/storage.rs: `put` and `put_file`, which reads a spooled upload in pieces
-- of a fixed size, seals each piece if a key is set, and writes one object.
use uwuubox.Prelude.{
  ℕ, zero, suc, ◌+◌, ◌-◌, List, [], ◌∷◌, ◌++◌, Option, none, some, ltb, leb, ◌==◌, if◌then◌else◌,
  Bytes, codes, length, take, drop, err,
}
use uwuubox.Text.{Text}
use uwuubox.ObjectCrypt.{Aead, seal, seal_chunk, stream_header, stream_chunk_pt}
use uwuubox.Storage.{StorageError, backend, panicked, Stored, is_safe_key}

-- What the reads of the spool file return, one after the other.
pub data Read : Type 0 where
  chunk : Bytes → Read
  read_error : Text → Read

-- The buffer after the inner loop of the pump.
pub record Filled : Type 0 where
  pub got : Bytes
  pub rest : List Read
  pub fault : Option Text

-- `while filled < buf.len()`: reads until `want` bytes are there, an empty read, or an error. A read
-- that has more than is wanted hands out the rest later.
unfoldable pub fill : ℕ → List Read → Filled
fill want [] = record { got = []; rest = []; fault = none }
fill want (read_error m ∷ rs) =
    if want == 0
    then record { got = []; rest = read_error m ∷ rs; fault = none }
    else record { got = []; rest = rs; fault = some m }
fill want (chunk [] ∷ rs) = record {
  got = [];
  rest = if want == 0 then chunk [] ∷ rs else rs;
  fault = none;
}
fill want (chunk (b ∷ bs) ∷ rs) =
    let more = fill (want - length (b ∷ bs)) rs in
    if leb (length (b ∷ bs)) want
    then record { got = (b ∷ bs) ++ more.got; rest = more.rest; fault = more.fault }
    else record { got = take want (b ∷ bs); rest = chunk (drop want (b ∷ bs)) ∷ rs; fault = none }

-- What the pump sent, and the error that it ended with.
pub record Pumped : Type 0 where
  pub sent : List Bytes
  pub fault : Option Text

abbrev pub sending : Bytes → Pumped → Pumped
sending piece p = record { sent = piece ∷ p.sent; fault = p.fault }

abbrev pub stopped : Option Text → Pumped
stopped fault = record { sent = []; fault = fault }

-- What one round sends: a piece that is not full is the last, else `others` follow.
unfoldable pub pump_round : ℕ → Bytes → Bytes → Option Text → Pumped → Pumped
pump_round size got piece (some m) others = stopped (some m)
pump_round size [] piece none others = stopped none
pump_round size (b ∷ bs) piece none others =
    if ltb (length (b ∷ bs)) size then sending piece (stopped none) else sending piece others

-- The task `pump`: `wrap` seals or copies the piece of an index. The fuel bounds the number of
-- pieces.
unfoldable pub pump : ℕ → ℕ → (ℕ → Bytes → Bytes) → ℕ → List Read → Pumped
unfolding fill pump_round
pump zero size wrap index reads = stopped none
pump (suc f) size wrap index reads =
    let filled = fill size reads in
    let others = pump f size wrap (index + 1) filled.rest in
    pump_round size filled.got (wrap index filled.got) filled.fault others

-- What a write left under the key, if anything, and what the caller is told.
pub record Written : Type 0 where
  pub object : Option Bytes
  pub result : Stored (Unit {0})

-- The two ways to write an object of the configured backend: `raw_put`, and the parts of
-- `stream_write` or `multipart_upload`.
pub record Sink : Type 0 where
  pub raw_put : Bytes → Written
  pub put_parts : List Bytes → Written

abbrev pub refused : StorageError → Written
refused e = record { object = none; result = err e }

abbrev pub with_fault : Option Text → Written → Written
with_fault none w = w
with_fault (some m) w = record { object = w.object; result = err (backend m) }

-- The bytes of `reads`, an upper bound for the number of pieces.
unfoldable pub read_bytes : List Read → Bytes
read_bytes [] = []
read_bytes (chunk c ∷ rs) = c ++ read_bytes rs
read_bytes (read_error m ∷ rs) = read_bytes rs

-- The pump's `seal`, and the header, for a key and the base nonce drawn for this object.
abbrev pub wrap_piece : Aead → Option Bytes → Bytes → ℕ → Bytes → Bytes
wrap_piece a none base index piece = piece
wrap_piece a (some key) base index piece = seal_chunk a key base index piece

abbrev pub header_of : ℕ → Option Bytes → Bytes → Bytes
header_of size none base = []
header_of size (some key) base = stream_header size base

-- One piece is written by one PUT, and the pump's error is not looked at; more are written as
-- parts, the header fused onto the first, and then the pump's error counts.
unfoldable pub write_pieces : Sink → Bytes → ℕ → Pumped → Written
write_pieces sink header pt_len p = elim p.sent [
  | [] ↦
      if pt_len == 0 then sink.raw_put header else refused (backend (codes "upload spool vanished"))
  | first ∷ others ↦ elim others [
    | [] ↦ sink.raw_put (header ++ first)
    | second ∷ more ↦ with_fault p.fault (sink.put_parts ((header ++ first) ∷ second ∷ more))
  ]
]

module _ (a : Aead) (sink : Sink) where
  -- `Store::put`; the nonce is drawn at random.
  unfoldable pub put : Option Bytes → Bytes → Bytes → Written
  put none nonce bytes = sink.raw_put bytes
  put (some key) nonce bytes = sink.raw_put (seal a key nonce bytes)

  -- `put_file` for a piece size.
  unfoldable pub put_file_sized : ℕ → Option Bytes → Bytes → Text → List Read → ℕ → Written
  unfolding write_pieces pump read_bytes
  put_file_sized size encryption_key base key reads pt_len =
      if is_safe_key key
      then write_pieces sink (header_of size encryption_key base) pt_len
          (pump (suc (length (read_bytes reads))) size (wrap_piece a encryption_key base) 0 reads)
      else refused panicked

  unfoldable pub put_file : Option Bytes → Bytes → Text → List Read → ℕ → Written
  unfolding put_file_sized
  put_file encryption_key base key reads pt_len =
      put_file_sized stream_chunk_pt encryption_key base key reads pt_len
