-- ===== src/ObjectCrypt/Sealing.antt =====
-- The v1 format: an object sealed as a whole (`seal`, `open`).
use uwuubox.Prelude.{
  ◌+◌, ◌≤◌, ◌≡◌, sym, ap, ◌∙◌, true, ◌++◌, Option, none, some, arith, Bytes, bytes_eq_sound, length,
  length-append, take, drop, take-append-drop, length-take, drop-drop, ok, length-drop, take_left,
  drop_left,
}
use uwuubox.ObjectCrypt.{
  Aead, IsAead, magic, overhead, nonce_len, open_error, decrypted, is_encrypted, seal, open_sealed,
}

module _ (a : Aead) (laws : IsAead a) where
  length-seal :
      (key nonce pt : Bytes)
      → length nonce ≡ nonce_len
      → length (seal a key nonce pt) ≡ overhead + length pt
  unfolding seal
  length-seal key nonce pt h =
      omega (arith, length-append nonce (a.encrypt key nonce pt), laws.length-encrypt key nonce pt)

  is_encrypted-magic : (rest : Bytes) → is_encrypted (magic ++ rest) ≡ true
  unfolding is_encrypted
  is_encrypted-magic rest = ground arith

  -- What `open` does with an object that passes its test.
  open_sealed_of_is_encrypted :
      (key sealed : Bytes)
      → is_encrypted sealed ≡ true
      → overhead ≤ length sealed
      → open_sealed a key sealed
        ≡ decrypted open_error (a.decrypt key (take 24 (drop 4 sealed)) (drop 28 sealed))
  unfolding open_sealed
  open_sealed_of_is_encrypted key sealed h k = ground arith

  -- With a cipher that decrypts what it encrypts and adds a tag of 16 bytes, `open` of what
  -- `seal` makes with the same key and a nonce of 24 bytes is the plaintext.
  pub open_sealed-seal :
      (key nonce pt : Bytes)
      → length nonce ≡ nonce_len
      → open_sealed a key (seal a key nonce pt) ≡ ok pt
  unfolding seal
  open_sealed-seal key nonce pt h =
      let ct = a.encrypt key nonce pt in
      open_sealed_of_is_encrypted key (magic ++ nonce ++ ct) (is_encrypted-magic (nonce ++ ct))
        (omega (arith, length-append nonce ct, laws.length-encrypt key nonce pt))
      ∙ rw (take_left 24 nonce ct h, drop_left 24 nonce ct h, laws.decrypt-encrypt)

  is_encrypted-eq : (s : Bytes) → is_encrypted s ≡ true → (4 ≤ length s) × (take 4 s ≡ magic)
  unfolding is_encrypted
  is_encrypted-eq s h = (ground arith, bytes_eq_sound (take 4 s) magic (ground arith))

  decrypted-eq-ok : (o : Option Bytes) {pt : Bytes} → decrypted open_error o ≡ ok pt → o ≡ some pt
  decrypted-eq-ok none h = cc
  decrypted-eq-ok (some x) h = ground arith

  open_sealed-eq-ok :
      (key sealed : Bytes) {pt : Bytes}
      → open_sealed a key sealed ≡ ok pt
      → (is_encrypted sealed ≡ true)
        × (overhead ≤ length sealed)
        × (a.decrypt key (take 24 (drop 4 sealed)) (drop 28 sealed) ≡ some pt)
  unfolding open_sealed
  open_sealed-eq-ok key sealed {pt} h = (
    ground arith,
    ground arith,
    decrypted-eq-ok (a.decrypt key (take 24 (drop 4 sealed)) (drop 28 sealed)) (ground arith),
  )

  -- With a cipher that accepts only what it would encrypt, whatever `open` accepts is exactly the
  -- seal of the plaintext it answers, under some nonce of 24 bytes.
  pub open_sealed_sound :
      (key sealed : Bytes) {pt : Bytes}
      → open_sealed a key sealed ≡ ok pt
      → (nonce : Bytes) × (length nonce ≡ nonce_len) × (sealed ≡ seal a key nonce pt)
  unfolding seal
  open_sealed_sound key sealed {pt} h =
      let (enc, long, opened) = open_sealed-eq-ok key sealed h in
      let nonce = take 24 (drop 4 sealed) in
      let back : drop 24 (drop 4 sealed) ≡ a.encrypt key nonce pt =
        drop-drop 24 4 sealed ∙ laws.encrypt-decrypt key nonce (drop 28 sealed) pt opened in
      (
        nonce,
        omega (arith, length-take 24 (drop 4 sealed), length-drop 4 sealed),
        sym (take-append-drop 4 sealed)
            ∙ ap (λ t. t ++ drop 4 sealed) (is_encrypted-eq sealed enc).1
            ∙ ap (λ t. magic ++ t)
                (sym (take-append-drop 24 (drop 4 sealed)) ∙ ap (λ t. nonce ++ t) back),
      )
