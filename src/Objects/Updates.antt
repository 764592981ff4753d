-- ===== src/Objects/Updates.antt =====
-- The one row that an UPDATE of `refcount` changes: src/db.rs, `acquire_object`, `release_object`.
use uwuubox.Prelude.{
  ◌∙◌, ◌≡◌, ap, ◌||◌, subst, Bool-cases, bytes_eq_refl, sym, inl, arith, bytes_eq_sound, inr,
  if◌then◌else◌, ◌∷◌, refl, if_true,
}
use uwuubox.Prelude.Int.{ℤ}
use uwuubox.Text.{Text}
use uwuubox.Objects.{ObjectRow, with_refcount, has_key, bytes_eq, List, some, true, false}
use uwuubox.Objects.References.{refcount_of, IsUnique}

-- The row of the key has the number `m` before and `n` after, and nothing else changes.
pub data Sets (key : Text) (m n : ℤ) : List ObjectRow → List ObjectRow → Type 0 where
  here :
      (row : ObjectRow) (rows : List ObjectRow)
      → row.storage_key ≡ key
      → row.refcount ≡ m
      → Sets key m n (row ∷ rows) (with_refcount row n ∷ rows)
  there :
      (row : ObjectRow) {rows rows' : List ObjectRow}
      → Sets key m n rows rows'
      → Sets key m n (row ∷ rows) (row ∷ rows')

at_key :
    {key : Text} (row : ObjectRow) → row.storage_key ≡ key → bytes_eq row.storage_key key ≡ true
at_key {key} row e = subst (λ t. bytes_eq t key ≡ true) (sym e) (bytes_eq_refl key)

module _ {key : Text} {m n : ℤ} where
  pub Sets-has_key :
      (k : Text) {rows rows' : List ObjectRow}
      → Sets key m n rows rows'
      → has_key k rows' ≡ has_key k rows
  Sets-has_key k (here row rows e f) = refl
  Sets-has_key k (there row s) = ap (λ b. bytes_eq row.storage_key k || b) (Sets-has_key k s)

  pub Sets-present :
      {rows rows' : List ObjectRow} → Sets key m n rows rows' → has_key key rows ≡ true
  Sets-present (here row rows e f) = ap (λ b. b || has_key key rows) (at_key row e)
  Sets-present (there row s) = ground (arith, Sets-present s)

  pub Sets-IsUnique :
      {rows rows' : List ObjectRow} → Sets key m n rows rows' → IsUnique rows → IsUnique rows'
  unfolding IsUnique
  Sets-IsUnique (here row rows e f) h = h
  Sets-IsUnique (there row s) (p, h) = (Sets-has_key row.storage_key s ∙ p, Sets-IsUnique s h)

  pub Sets-other :
      (k : Text)
      → bytes_eq key k ≡ false
      → {rows rows' : List ObjectRow} → Sets key m n rows rows'
      → refcount_of k rows' ≡ refcount_of k rows
  unfolding refcount_of
  Sets-other k h (here row rows e f) =
      let miss : bytes_eq row.storage_key k ≡ false = subst (λ t. bytes_eq t k ≡ false) (sym e) h in
      rw (miss) refl
  Sets-other k h (there row s) =
      ap (λ o. if bytes_eq row.storage_key k then some row.refcount else o) (Sets-other k h s)

  -- A key that is not that of a row before the one that changes.
  apart :
      (row : ObjectRow) {rows rows' : List ObjectRow}
      → Sets key m n rows rows'
      → has_key row.storage_key rows ≡ false
      → bytes_eq row.storage_key key ≡ false
  apart row {rows} s h = elim (Bool-cases (bytes_eq row.storage_key key)) [
    | inl same ↦
        (let e : has_key key rows ≡ false =
            subst (λ t. has_key t rows ≡ false) (bytes_eq_sound row.storage_key key same) h in
          let p = Sets-present s in cc)
    | inr other ↦ other
  ]

  pub Sets-before :
      {rows rows' : List ObjectRow}
      → Sets key m n rows rows'
      → IsUnique rows
      → refcount_of key rows ≡ some m
  unfolding refcount_of IsUnique
  Sets-before (here row rows e f) h = if_true _ _ (at_key row e) ∙ ap some f
  Sets-before (there row s) (p, h) = rw (apart row s p) (Sets-before s h)

  pub Sets-after :
      {rows rows' : List ObjectRow}
      → Sets key m n rows rows'
      → IsUnique rows
      → refcount_of key rows' ≡ some n
  unfolding refcount_of IsUnique
  Sets-after (here row rows e f) h = if_true _ _ (at_key row e)
  Sets-after (there row s) (p, h) = rw (apart row s p) (Sets-after s h)
