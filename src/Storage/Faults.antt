-- ===== src/Storage/Faults.antt =====
-- Where the store's promises stop: plaintext that begins with a magic, and a spool file that fails
-- to read after its first piece.
use uwuubox.Storage.Reading.{get_stream, key_unset, collect}
use uwuubox.Storage.RoundTrip.{IsSink, stored}
use uwuubox.Storage.Serving.{Serves}
use uwuubox.Text.{Text}
use uwuubox.Storage.{Store, is_safe_key, encryption_key, Stream, raw_stream}
use uwuubox.Storage.Writing.{
  put_file_sized, Sink, Read, chunk, read_error, header_of, wrap_piece, fill, pump, write_pieces,
  read_bytes,
}
use uwuubox.ObjectCrypt.{is_encrypted, Aead, is_stream_sealed}
use uwuubox.Prelude.{
  ℕ, ◌≤◌, ◌<◌, ◌≡◌, Bytes, ◌||◌, Option, length, take, true, arith, List, none, ◌∷◌, err, false, ok,
  ◌++◌, ap, Bool-cases, leb, [], suc, some, inl, ◌∙◌, inr, ltb, ◌-◌, append-nil,
}

-- The first four bytes decide the format.
is_encrypted-take : (b : Bytes) → 4 ≤ length b → is_encrypted (take 4 b) ≡ is_encrypted b
unfolding is_encrypted
is_encrypted-take (w ∷ x ∷ y ∷ z ∷ b) h = ground arith
is_encrypted-take _ h = absurd (omega arith)

is_stream_sealed-take :
    (b : Bytes) → 4 ≤ length b → is_stream_sealed (take 4 b) ≡ is_stream_sealed b
unfolding is_stream_sealed
is_stream_sealed-take (w ∷ x ∷ y ∷ z ∷ b) h = ground arith
is_stream_sealed-take _ h = absurd (omega arith)

sealed-long : (b : Bytes) → (is_encrypted b || is_stream_sealed b) ≡ true → 4 ≤ length b
unfolding is_encrypted is_stream_sealed
sealed-long b h = ground arith

module _ (a : Aead) (store : Store) (key : Text) (file : Bytes) (serves : Serves store key file)
    (unset : encryption_key store ≡ none) where
  -- A store without a key streams an object that is not empty and begins with neither `UWU1` nor
  -- `UWU2` back whole, whatever length it is told.
  pub get_stream-plaintext :
      (pt_len : ℕ)
      → 0 < length file
      → (is_encrypted file || is_stream_sealed file) ≡ false
      → (s : Stream) × (get_stream a store key pt_len ≡ ok s) × (collect s ≡ ok file)
  unfolding get_stream
  get_stream-plaintext pt_len p plain = (
    raw_stream store key,
    elim (Bool-cases (leb 4 (length file))) [
      | inl long ↦ rw (
        serves.exact 0 4 (ground arith),
        unset,
        is_encrypted-take file (ground arith),
        is_stream_sealed-take file (ground arith),
        plain,
      )
      | inr tiny ↦ let (m, failed_probe) = serves.short p (ground arith) in rw failed_probe
    ],
    serves.streamed,
  )

  -- A store without a key that serves an object which begins with `UWU1` or `UWU2` answers the
  -- error that the key is unset.
  pub get_stream-magic :
      (pt_len : ℕ)
      → (is_encrypted file || is_stream_sealed file) ≡ true
      → get_stream a store key pt_len ≡ err key_unset
  unfolding get_stream
  get_stream-magic pt_len magical =
      let long : 4 ≤ length file = sealed-long file magical in
      rw (
        serves.exact 0 4 long,
        unset,
        is_encrypted-take file long,
        is_stream_sealed-take file long,
        magical,
      )

fill-exact :
    (c : Bytes) (m : Text) (rest : List Read)
    → 0 < length c
    → fill (length c) (chunk c ∷ read_error m ∷ rest)
      ≡ record { got = c; rest = read_error m ∷ rest; fault = none }
unfolding fill
fill-exact [] m rest h = absurd (omega arith)
fill-exact (b ∷ bs) m rest h =
    let z : length (b ∷ bs) - length (b ∷ bs) ≡ 0 = omega arith in
    let t : leb (length (b ∷ bs)) (length (b ∷ bs)) ≡ true = ground arith in rw (t, z, append-nil)

fill-error :
    (size : ℕ) (m : Text) (rest : List Read)
    → 0 < size
    → fill size (read_error m ∷ rest) ≡ record { got = []; rest = rest; fault = some m }
unfolding fill
fill-error size m rest h = ground arith

-- The pump sends the piece and then stops with the error.
pump-error :
    (f size : ℕ) (wrap : ℕ → Bytes → Bytes) (c : Bytes) (m : Text) (rest : List Read)
    → 0 < size
    → length c ≡ size
    → pump (suc (suc f)) size wrap 0 (chunk c ∷ read_error m ∷ rest)
      ≡ record { sent = wrap 0 c ∷ []; fault = some m }
unfolding pump
pump-error f size wrap [] m rest p e = absurd (omega arith)
pump-error f size wrap (b ∷ bs) m rest p e =
    let full : ltb (length (b ∷ bs)) (length (b ∷ bs)) ≡ false = ground arith in
    let pos : 0 < length (b ∷ bs) = omega arith in
    rw (← e) (rw (fill-exact (b ∷ bs) m rest pos, fill-error (length (b ∷ bs)) m rest pos, full))

-- If the spool file yields one full piece and then a read error, then on a backend whose writes do
-- not fail, for a safe key, `put_file` stores that piece alone and reports success, whatever length
-- it is told.
pub put_file_sized-swallows :
    (a : Aead) (sink : Sink) (size : ℕ) (encryption_key : Option Bytes) (base : Bytes) (key : Text)
    (c : Bytes) (m : Text) (rest : List Read) (pt_len : ℕ)
    → IsSink sink
    → is_safe_key key ≡ true
    → length c ≡ size
    → 0 < size
    → put_file_sized a sink size encryption_key base key (chunk c ∷ read_error m ∷ rest) pt_len
      ≡ stored (header_of size encryption_key base ++ wrap_piece a encryption_key base 0 c)
unfolding put_file_sized
put_file_sized-swallows a sink size key_opt base key [] m rest pt_len works safe e p =
    absurd (omega arith)
put_file_sized-swallows a sink size key_opt base key (b ∷ bs) m rest pt_len works safe e p =
    rw safe (
      ap (write_pieces sink (header_of size key_opt base) pt_len) (
        pump-error (length (bs ++ read_bytes rest)) size (wrap_piece a key_opt base) (b ∷ bs) m rest
          p e)
      ∙ works.whole (header_of size key_opt base ++ wrap_piece a key_opt base 0 (b ∷ bs)))
