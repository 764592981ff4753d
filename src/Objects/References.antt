-- ===== src/Objects/References.antt =====
-- Proofs about src/db.rs: `refcount` counts the references to an object.
use uwuubox.Prelude.{
  ℕ, ◌≡◌, suc, Bool-cases, arith, inl, zero, [], refl, subst, inr, sym, bytes_eq_sound,
  if◌then◌else◌,
}
use uwuubox.Prelude.Int.{ℤ, pos}
use uwuubox.Text.{Text}
use uwuubox.Objects.{
  ObjectRow, delete_object, Option, List, ◌∷◌, has_key, none, bytes_eq, false, some,
}

-- How often a key is referred to.
unfoldable pub count : Text → List Text → ℕ
count k [] = 0
count k (r ∷ refs) = if bytes_eq r k then suc (count k refs) else count k refs

-- The number that the table holds for a key.
unfoldable pub refcount_of : Text → List ObjectRow → Option ℤ
refcount_of k [] = none
refcount_of k (row ∷ rows) =
    if bytes_eq row.storage_key k then some row.refcount else refcount_of k rows

abbrev pub as_refcount : ℕ → Option ℤ
as_refcount zero = none
as_refcount (suc n) = some (pos (suc n))

-- No key stands twice.
unfoldable pub IsUnique : List ObjectRow → Type 0
IsUnique [] = Unit
IsUnique (row ∷ rows) = (has_key row.storage_key rows ≡ false) × IsUnique rows

-- The table counts exactly the references, and holds no object without one.
unfoldable pub Counts : List ObjectRow → List Text → Type 0
unfolding IsUnique
Counts rows refs = IsUnique rows × ((k : Text) → refcount_of k rows ≡ as_refcount (count k refs))

pub has_key-refcount_of :
    (k : Text) (rows : List ObjectRow) → has_key k rows ≡ false → refcount_of k rows ≡ none
unfolding refcount_of
has_key-refcount_of k [] h = refl
has_key-refcount_of k (row ∷ rows) h = ground (arith, has_key-refcount_of k rows)

pub as_refcount-none : (n : ℕ) → as_refcount n ≡ none → n ≡ 0
as_refcount-none zero h = refl
as_refcount-none (suc n) h = cc

-- Deleting a key.
pub refcount_of-delete_same :
    (k : Text) (rows : List ObjectRow) → refcount_of k (delete_object rows k) ≡ none
unfolding refcount_of delete_object
refcount_of-delete_same k [] = refl
refcount_of-delete_same k (row ∷ rows) = elim (Bool-cases (bytes_eq row.storage_key k)) [
  | inl same ↦ rw same (refcount_of-delete_same k rows)
  | inr other ↦ rw (other, other) (refcount_of-delete_same k rows)
]

pub refcount_of-delete_other :
    (k key : Text) (rows : List ObjectRow)
    → bytes_eq key k ≡ false
    → refcount_of k (delete_object rows key) ≡ refcount_of k rows
unfolding refcount_of delete_object
refcount_of-delete_other k key [] h = refl
refcount_of-delete_other k key (row ∷ rows) h = elim (Bool-cases (bytes_eq row.storage_key key)) [
  | inl same ↦
      (let e : bytes_eq row.storage_key k ≡ false =
          subst (λ t. bytes_eq t k ≡ false) (sym (bytes_eq_sound row.storage_key key same)) h in
        rw (same, e) (refcount_of-delete_other k key rows h))
  | inr other ↦ elim (Bool-cases (bytes_eq row.storage_key k)) [
    | inl hit ↦ rw (other, hit) refl
    | inr miss ↦ rw (other, miss) (refcount_of-delete_other k key rows h)
  ]
]

has_key-delete :
    (k key : Text) (rows : List ObjectRow)
    → has_key k rows ≡ false
    → has_key k (delete_object rows key) ≡ false
unfolding delete_object
has_key-delete k key [] h = refl
has_key-delete k key (row ∷ rows) h = ground (arith, has_key-delete k key rows)

pub delete_object-IsUnique :
    (key : Text) (rows : List ObjectRow) → IsUnique rows → IsUnique (delete_object rows key)
unfolding IsUnique delete_object
delete_object-IsUnique key [] h = tt
delete_object-IsUnique key (row ∷ rows) (p, h) = elim (Bool-cases (bytes_eq row.storage_key key)) [
  | inl same ↦ rw same (delete_object-IsUnique key rows h)
  | inr other ↦
      rw other (has_key-delete row.storage_key key rows p, delete_object-IsUnique key rows h)
]
