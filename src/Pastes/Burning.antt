-- ===== src/Pastes/Burning.antt =====
-- Proofs about src/routes/pastes.rs: a paste that burns is read once.
use uwuubox.Prelude.{
  ◌≡◌, ◌∙◌, ap, sym, refl, subst, Bool, Bool-cases, inl, inr, if_true, if_false, true, false, List,
  Bytes, [], ◌∷◌, none, some, ok, err, bytes_eq,
}
use uwuubox.Text.{Text}
use uwuubox.Errors.{failed, not_found}
use uwuubox.Range.{RangeOutcome, full, satisfiable, invalid, unsatisfiable}
use uwuubox.Range.Bounds.{IsSent}
use uwuubox.Pastes.{PasteRow}
use uwuubox.Pastes.Reading.{find_paste, delete_row, send_paste, hand_out, burned, PasteAnswer}

abbrev rows_after : Bool × List PasteRow → List PasteRow
rows_after o = o.1

delete_row-find_paste :
    (core : Text) (pastes : List PasteRow) → find_paste core (delete_row core pastes).1 ≡ none
unfolding delete_row find_paste
delete_row-find_paste core [] = refl
delete_row-find_paste core (row ∷ rows) = elim (Bool-cases (bytes_eq row.id_core core)) [
  | inl same ↦
      ap (λ o. find_paste core (rows_after o)) (if_true _ _ same) ∙ delete_row-find_paste core rows
  | inr other ↦
      ap (λ o. find_paste core (rows_after o)) (if_false _ _ other)
      ∙ (if_false _ _ other ∙ delete_row-find_paste core rows)
]

find_paste-delete_row :
    (core : Text) (pastes : List PasteRow)
    → find_paste core pastes ≡ none
    → delete_row core pastes ≡ (false, pastes)
unfolding delete_row find_paste
find_paste-delete_row core [] h = refl
find_paste-delete_row core (row ∷ rows) h = elim (Bool-cases (bytes_eq row.id_core core)) [
  | inl same ↦ (let e : some row ≡ none = sym (if_true _ _ same) ∙ h in cc)
  | inr other ↦
      (let e = find_paste-delete_row core rows (sym (if_false _ _ other) ∙ h) in
        if_false _ _ other ∙ ap (λ o. (o.0, row ∷ rows_after o)) e)
]

delete_row-none :
    (core other : Text) (pastes : List PasteRow)
    → find_paste core pastes ≡ none
    → find_paste core (delete_row other pastes).1 ≡ none
unfolding delete_row find_paste
delete_row-none core other [] h = refl
delete_row-none core other (row ∷ rows) h = elim (Bool-cases (bytes_eq row.id_core core)) [
  | inl same ↦ (let e : some row ≡ none = sym (if_true _ _ same) ∙ h in cc)
  | inr apart ↦
      (let rest = delete_row-none core other rows (sym (if_false _ _ apart) ∙ h) in
        elim (Bool-cases (bytes_eq row.id_core other)) [
          | inl deleted ↦ ap (λ o. find_paste core (rows_after o)) (if_true _ _ deleted) ∙ rest
          | inr kept ↦
              ap (λ o. find_paste core (rows_after o)) (if_false _ _ kept)
              ∙ (if_false _ _ apart ∙ rest)
        ])
]

-- The rows after deletions of these cores, the last one first.
unfoldable pub delete_rows : List Text → List PasteRow → List PasteRow
unfolding delete_row
delete_rows [] pastes = pastes
delete_rows (core ∷ cores) pastes = (delete_row core (delete_rows cores pastes)).1

delete_rows-none :
    (core : Text) (cores : List Text) (pastes : List PasteRow)
    → find_paste core pastes ≡ none
    → find_paste core (delete_rows cores pastes) ≡ none
unfolding delete_rows
delete_rows-none core [] pastes h = h
delete_rows-none core (other ∷ cores) pastes h =
    delete_row-none core other (delete_rows cores pastes) (delete_rows-none core cores pastes h)

module _ (to_bytes : Text → Bytes) where
  burned-rows :
      (row : PasteRow) (outcome : RangeOutcome) (o : Bool × List PasteRow) (answer : PasteAnswer)
      (rows : List PasteRow)
      → burned to_bytes row outcome o ≡ (ok answer, rows)
      → o.1 ≡ rows
  burned-rows row outcome (true, left) answer rows h = cc
  burned-rows row outcome (false, left) answer rows h = cc

  hand_out-once :
      (row : PasteRow) (outcome later : RangeOutcome) (pastes pastes' : List PasteRow)
      (answer : PasteAnswer) (cores : List Text)
      → row.burn_after_read ≡ true
      → hand_out to_bytes row outcome pastes ≡ (ok answer, pastes')
      → hand_out to_bytes row later (delete_rows cores pastes')
        ≡ (err (failed not_found), delete_rows cores pastes')
  unfolding hand_out
  hand_out-once row outcome later pastes pastes' answer cores burns h =
      let left = burned-rows row outcome _ answer pastes' (sym (if_true _ _ burns) ∙ h) in
      let gone : find_paste row.id_core pastes' ≡ none =
        subst (λ rows. find_paste row.id_core rows ≡ none) left
          (delete_row-find_paste row.id_core pastes) in
      if_true _ _ burns
      ∙ ap (burned to_bytes row later) (
          find_paste-delete_row row.id_core (delete_rows cores pastes')
            (delete_rows-none row.id_core cores pastes' gone))

  -- The handler comes to the row exactly for these outcomes.
  send_paste-hand_out :
      (row : PasteRow) (outcome : RangeOutcome) (pastes : List PasteRow)
      → IsSent outcome
      → send_paste to_bytes row outcome pastes ≡ hand_out to_bytes row outcome pastes
  unfolding send_paste
  send_paste-hand_out row full pastes sent = refl
  send_paste-hand_out row (satisfiable start end) pastes sent = refl
  send_paste-hand_out row invalid pastes sent = elim sent [ ]
  send_paste-hand_out row unsatisfiable pastes sent = elim sent [ ]

  -- Once a burning row was sent to a request that held it and asked for everything or for a range
  -- inside, and after any further deletions of pastes, another request that holds the row and
  -- asks for everything or for a range inside is answered that there is no such paste, and
  -- changes nothing.
  pub send_paste-once :
      (row : PasteRow) (outcome later : RangeOutcome) (pastes pastes' : List PasteRow)
      (answer : PasteAnswer) (cores : List Text)
      → row.burn_after_read ≡ true
      → IsSent outcome
      → IsSent later
      → send_paste to_bytes row outcome pastes ≡ (ok answer, pastes')
      → send_paste to_bytes row later (delete_rows cores pastes')
        ≡ (err (failed not_found), delete_rows cores pastes')
  send_paste-once row outcome later pastes pastes' answer cores burns asks asks_later h =
      send_paste-hand_out row later (delete_rows cores pastes') asks_later
      ∙ hand_out-once row outcome later pastes pastes' answer cores burns
          (sym (send_paste-hand_out row outcome pastes asks) ∙ h)
