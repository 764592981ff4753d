-- ===== src/Sweep/Ordering.antt =====
-- Proofs about the queries of src/db.rs that the sweep runs: they answer every expired row.
use uwuubox.Prelude.{
  ℕ, suc, ◌≤◌, ◌≡◌, ◌∙◌, ap, refl, Bool, Bool-cases, inl, inr, if_true, if_false, true, false, List,
  [], ◌∷◌, Option, length, any, take_all, arith,
}
use uwuubox.Sweep.{expired, insert_by_time, by_time, expired_rows, sooner}

any-swap :
    (p q r : Bool)
    → elim p [ true ↦ true | false ↦ elim q [ true ↦ true | false ↦ r ] ]
      ≡ elim q [ true ↦ true | false ↦ elim p [ true ↦ true | false ↦ r ] ]
any-swap true true r = refl
any-swap true false r = refl
any-swap false true r = refl
any-swap false false r = refl

module _ {A : Type 0} (expires_at : A → Option ℕ) (p : A → Bool) where
  any-insert_by_time :
      (row : A) (rows : List A) → any p (insert_by_time expires_at row rows) ≡ any p (row ∷ rows)
  unfolding insert_by_time
  any-insert_by_time row [] = refl
  any-insert_by_time row (r ∷ rows) =
      elim (Bool-cases (sooner expires_at (expires_at r) (expires_at row))) [
        | inl after ↦
            ap (any p) (if_true _ _ after)
            ∙ ap (λ b. elim (p r) [ true ↦ true | false ↦ b ]) (any-insert_by_time row rows)
            ∙ any-swap (p r) (p row) (any p rows)
        | inr before ↦ ap (any p) (if_false _ _ before)
      ]

  any-by_time : (rows : List A) → any p (by_time expires_at rows) ≡ any p rows
  unfolding by_time
  any-by_time [] = refl
  any-by_time (row ∷ rows) =
      any-insert_by_time row (by_time expires_at rows)
      ∙ ap (λ b. elim (p row) [ true ↦ true | false ↦ b ]) (any-by_time rows)

  length-insert_by_time :
      (row : A) (rows : List A) → length (insert_by_time expires_at row rows) ≡ suc (length rows)
  unfolding insert_by_time
  length-insert_by_time row [] = refl
  length-insert_by_time row (r ∷ rows) =
      elim (Bool-cases (sooner expires_at (expires_at r) (expires_at row))) [
        | inl after ↦ ap length (if_true _ _ after) ∙ ap suc (length-insert_by_time row rows)
        | inr before ↦ ap length (if_false _ _ before)
      ]

  length-by_time : (rows : List A) → length (by_time expires_at rows) ≡ length rows
  unfolding by_time
  length-by_time [] = refl
  length-by_time (row ∷ rows) =
      length-insert_by_time row (by_time expires_at rows) ∙ ap suc (length-by_time rows)

  pub any-expired_rows :
      (now limit : ℕ) (rows : List A)
      → length (expired expires_at now rows) ≤ limit
      → any p (expired_rows expires_at now limit rows) ≡ any p (expired expires_at now rows)
  unfolding expired_rows
  any-expired_rows now limit rows h =
      let e = length-by_time (expired expires_at now rows) in
      ap (any p) (take_all limit (by_time expires_at (expired expires_at now rows)) (omega arith))
      ∙ any-by_time (expired expires_at now rows)
