-- ===== src/Objects/Counting.antt =====
-- Proofs about src/db.rs, `acquire_object` and `release_object`: one takes a reference, the other
-- gives one back.
use uwuubox.Objects.References.{refcount_of}
use uwuubox.Prelude.{
  ◌≡◌, none, Bool-cases, refl, inl, subst, sym, inr, [], if_true, ◌∙◌, if_false, ◌⊎◌,
  bytes_eq_sound,
}
use uwuubox.Prelude.Int.{ℤ, pos, ◌+ℤ◌, ◌-ℤ◌}
use uwuubox.Text.{Text}
use uwuubox.Objects.{
  ObjectRow, count_up, with_refcount, refcount_in, counted_row, keep_row, Option, List, Bytes, some,
  ◌∷◌, bytes_eq, Counted, lowered_row, count_down, keep_count,
}
use uwuubox.Objects.Updates.{Sets, here, there}

pub keep_row-some :
    (row : ObjectRow) (o : Option (Text × List ObjectRow)) {key : Text} {rows' : List ObjectRow}
    → keep_row row o ≡ some (key, rows')
    → (rows : List ObjectRow) × (o ≡ some (key, rows)) × (rows' ≡ row ∷ rows)
keep_row-some row none h = cc
keep_row-some row (some (k, rows)) h = (rows, cc, cc)

pub counted_row-some :
    (row : ObjectRow) (rows : List ObjectRow) (o : Option ℤ) {key : Text} {rows' : List ObjectRow}
    → counted_row row rows o ≡ some (key, rows')
    → (n : ℤ) × (o ≡ some n) × (key ≡ row.storage_key) × (rows' ≡ with_refcount row n ∷ rows)
counted_row-some row rows none h = cc
counted_row-some row rows (some n) h = (n, refl, cc, cc)

pub count_up-Sets :
    (rows : List ObjectRow) (sha256 : Bytes) {key : Text} {rows' : List ObjectRow}
    → count_up rows sha256 ≡ some (key, rows')
    → (m : ℤ) × (n : ℤ) × (refcount_in (m +ℤ pos 1) ≡ some n) × Sets key m n rows rows'
unfolding count_up
count_up-Sets [] sha256 h = cc
count_up-Sets (row ∷ rows) sha256 {key} {rows'} h = elim (Bool-cases (bytes_eq row.sha256 sha256)) [
  | inl same ↦
      (let (n, e, at, all) =
          counted_row-some row rows (refcount_in (row.refcount +ℤ pos 1))
            (sym (if_true _ _ same) ∙ h) in
        (
          row.refcount,
          n,
          e,
          subst (Sets key row.refcount n (row ∷ rows)) (sym all) (here row rows (sym at) refl),
        ))
  | inr other ↦
      (let (rest, e, all) =
          keep_row-some row (count_up rows sha256) (sym (if_false _ _ other) ∙ h) in
        let (m, n, f, s) = count_up-Sets rows sha256 e in
        (m, n, f, subst (Sets key m n (row ∷ rows)) (sym all) (there row s)))
]

keep_count-some :
    (row : ObjectRow) (o : Counted) {left : Option ℤ} {rows' : List ObjectRow}
    → keep_count row o ≡ some (left, rows')
    → (rows : List ObjectRow) × (o ≡ some (left, rows)) × (rows' ≡ row ∷ rows)
keep_count-some row none h = cc
keep_count-some row (some (l, rows)) h = (rows, cc, cc)

lowered_row-some :
    (row : ObjectRow) (rows : List ObjectRow) (o : Option ℤ) {left : Option ℤ}
    {rows' : List ObjectRow}
    → lowered_row row rows o ≡ some (left, rows')
    → (n : ℤ) × (o ≡ some n) × (left ≡ some n) × (rows' ≡ with_refcount row n ∷ rows)
lowered_row-some row rows none h = cc
lowered_row-some row rows (some n) h = (n, refl, cc, cc)

-- Either no row has the key, and nothing changes, or that row's number goes down.
pub count_down-cases :
    (rows : List ObjectRow) (key : Text) {left : Option ℤ} {rows' : List ObjectRow}
    → count_down rows key ≡ some (left, rows')
    → ((left ≡ none) × (refcount_of key rows ≡ none))
      ⊎ ((m : ℤ) × (n : ℤ) × (left ≡ some n)
          × (refcount_in (m -ℤ pos 1) ≡ some n)
          × Sets key m n rows rows')
unfolding count_down refcount_of
count_down-cases [] key h = inl (cc, refl)
count_down-cases (row ∷ rows) key {left} {rows'} h =
    elim (Bool-cases (bytes_eq row.storage_key key)) [
      | inl same ↦
          (let (n, e, at, all) =
              lowered_row-some row rows (refcount_in (row.refcount -ℤ pos 1))
                (sym (if_true _ _ same) ∙ h) in
            inr (
              row.refcount,
              n,
              at,
              e,
              subst (Sets key row.refcount n (row ∷ rows)) (sym all)
                  (here row rows (bytes_eq_sound row.storage_key key same) refl),
            ))
      | inr other ↦
          (let (rest, e, all) =
              keep_count-some row (count_down rows key) (sym (if_false _ _ other) ∙ h) in
            elim (count_down-cases rows key e) [
              | inl (gone, absent) ↦ inl (gone, if_false _ _ other ∙ absent)
              | inr (m, n, at, f, s) ↦
                  inr (m, n, at, f, subst (Sets key m n (row ∷ rows)) (sym all) (there row s))
            ])
    ]
