-- ===== src/Sweep/Progress.antt =====
-- Proofs about src/expiry.rs: after a run no expired file is left, and every other file is.
use uwuubox.Prelude.{
  ℕ, ◌≤◌, ◌<◌, ◌≡◌, ◌∙◌, ap, sym, refl, subst, Bool, Bool-cases, inl, inr, if_true, if_false, true,
  false, List, [], ◌∷◌, Option, none, some, length, any, arith, if◌then◌else◌, bytes_eq,
  bytes_eq_sound,
}
use uwuubox.Text.{Text}
use uwuubox.Storage.{is_safe_key}
use uwuubox.Objects.References.{Counts, count}
use uwuubox.Files.Rows.{FileRow, World, Erase, is_expired, remove_file, find_file, delete_row}
use uwuubox.Files.References.{refs_of, Takes, delete_row-Takes}
use uwuubox.Files.Removal.{remove_file-Removes, Removes, delete_row-absent}
use uwuubox.Files.Keys.{IsKeyed, delete_row-IsKeyed, find_file-deleted}
use uwuubox.Pastes.{PasteRow}
use uwuubox.Sweep.{Metrics, expired, expired_rows, sweep_files, run_once, file_expiry}
use uwuubox.Sweep.Ordering.{any-expired_rows}

-- The tables fit together: cores are unique, the table counts the references of the files exactly,
-- each fits its column, and names a safe key.
pub record IsSound (w : World) : Type 0 where
  pub keyed : IsKeyed w.files
  pub exact : Counts w.objects (refs_of w.files)
  pub small : (k : Text) → count k (refs_of w.files) < 2_147_483_648
  pub safe : (k : Text) → 0 < count k (refs_of w.files) → is_safe_key k ≡ true

abbrev pub unless_found : Bool → Option FileRow → Option FileRow
unless_found gone found = if gone then none else found

abbrev pub has_core : Text → FileRow → Bool
has_core core row = bytes_eq row.id_core core

find_file-delete_other :
    (core gone : Text) (rows : List FileRow)
    → bytes_eq gone core ≡ false
    → find_file core (delete_row gone rows).1 ≡ find_file core rows
unfolding find_file delete_row
find_file-delete_other core gone [] h = refl
find_file-delete_other core gone (row ∷ rows) h = elim (Bool-cases (bytes_eq row.id_core gone)) [
  | inl at ↦
      (let miss : bytes_eq row.id_core core ≡ false =
          subst (λ t. bytes_eq t core ≡ false) (sym (bytes_eq_sound row.id_core gone at)) h in
        rw at (sym (if_false _ _ miss)))
  | inr apart ↦ rw apart (
      ap (λ o. if bytes_eq row.id_core core then some row else o)
        (find_file-delete_other core gone rows h))
]

find_file-delete :
    (core gone : Text) (rows : List FileRow)
    → IsKeyed rows
    → find_file core (delete_row gone rows).1
      ≡ unless_found (bytes_eq gone core) (find_file core rows)
find_file-delete core gone rows h = elim (Bool-cases (bytes_eq gone core)) [
  | inl same ↦
      subst (λ t. find_file core (delete_row t rows).1 ≡ none) (sym (bytes_eq_sound gone core same))
        (find_file-deleted core rows h)
      ∙ sym (if_true _ _ same)
  | inr other ↦ find_file-delete_other core gone rows other ∙ sym (if_false _ _ other)
]

fewer :
    (k core : Text) (rows : List FileRow)
    → count k (refs_of (delete_row core rows).1) ≤ count k (refs_of rows)
fewer k core rows = by_case (delete_row core rows).0 refl (delete_row-Takes k core rows)
  where
    by_case :
        (found : Option FileRow)
        → (delete_row core rows).0 ≡ found
        → Takes k rows (found, (delete_row core rows).1)
        → count k (refs_of (delete_row core rows).1) ≤ count k (refs_of rows)
    by_case none e h =
        let same = delete_row-absent core rows e in
        let n = ap (λ rows. count k (refs_of rows)) same in omega arith
    by_case (some row) e h = omega arith

Removes-IsSound : (core : Text) (w w' : World) → Removes core w w' → IsSound w → IsSound w'
Removes-IsSound core w w' r s = record {
  keyed = subst IsKeyed (sym r.rows) (delete_row-IsKeyed core w.files s.keyed);
  exact = r.counted;
  small = λ k. below (drops k) (s.small k);
  safe = λ k h. s.safe k (above h (drops k));
}
  where
    drops : (k : Text) → count k (refs_of w'.files) ≤ count k (refs_of w.files)
    drops k =
        subst (λ rows. count k (refs_of rows) ≤ count k (refs_of w.files)) (sym r.rows)
          (fewer k core w.files)

    below : {a b c : ℕ} → a ≤ b → b < c → a < c
    below p q = omega arith

    above : {a b : ℕ} → 0 < a → a ≤ b → 0 < b
    above p q = omega arith

twice :
    (p q : Bool) (o : Option FileRow)
    → unless_found q (unless_found p o) ≡ unless_found (elim p [ true ↦ true | false ↦ q ]) o
twice true true o = refl
twice true false o = refl
twice false q o = refl

-- What is left of a row that a search finds.
abbrev pub live_only : ℕ → Option FileRow → Option FileRow
live_only now none = none
live_only now (some row) = if is_expired now row.expires_at then none else some row

abbrev is_gone : ℕ → Option FileRow → Bool
is_gone now none = false
is_gone now (some row) = is_expired now row.expires_at

live_only-unless : (now : ℕ) (o : Option FileRow) → unless_found (is_gone now o) o ≡ live_only now o
live_only-unless now none = elim (Bool-cases (is_gone now none)) [ inl e ↦ refl | inr e ↦ refl ]
live_only-unless now (some row) = refl

any-expired :
    (now : ℕ) (core : Text) (rows : List FileRow)
    → IsKeyed rows
    → any (has_core core) (expired file_expiry now rows) ≡ is_gone now (find_file core rows)
unfolding expired find_file IsKeyed
any-expired now core [] h = refl
any-expired now core (row ∷ rows) (p, h) =
    let ih = any-expired now core rows h in
    elim (Bool-cases (bytes_eq row.id_core core)) [
      | inl same ↦
          (let none_left : is_gone now (find_file core rows) ≡ false =
              ap (is_gone now)
                (subst (λ c. find_file c rows ≡ none) (bytes_eq_sound row.id_core core same) p) in
            elim (Bool-cases (is_expired now row.expires_at)) [
              | inl old ↦ rw (same, old) (rw (same, any) refl)
              | inr fresh ↦ rw (fresh, same) (ih ∙ none_left ∙ sym fresh)
            ])
      | inr other ↦ elim (Bool-cases (is_expired now row.expires_at)) [
        | inl old ↦ rw (other, old) (rw (other, any) ih)
        | inr fresh ↦ rw (other, fresh) ih
      ]
    ]

module _ (erase : Erase) (works : (key : Text) → erase key ≡ none) where
  sweep_files-IsSound :
      (rows : List FileRow) (w : World)
      → IsSound w
      → IsSound (sweep_files erase rows w).1
        × ((core : Text)
            → find_file core (sweep_files erase rows w).1.files
              ≡ unless_found (any (has_core core) rows) (find_file core w.files))
  unfolding sweep_files
  sweep_files-IsSound [] w s = (s, λ core. refl)
  sweep_files-IsSound (row ∷ rows) w s =
      let (w1, e, r) = remove_file-Removes erase works row.id_core w s.exact s.small s.safe in
      let (s2, found) = sweep_files-IsSound rows w1 (Removes-IsSound row.id_core w w1 r s) in
      let at : (remove_file erase row.id_core w).1 ≡ w1 = ap (λ o. o.1) e in
      (
        subst (λ v. IsSound (sweep_files erase rows v).1) (sym at) s2,
        λ core.
            ap (λ v. find_file core (sweep_files erase rows v).1.files) at
            ∙ found core
            ∙ ap (unless_found (any (has_core core) rows))
                (ap (find_file core) r.rows ∙ find_file-delete core row.id_core w.files s.keyed)
            ∙ twice (bytes_eq row.id_core core) (any (has_core core) rows) (find_file core w.files),
      )

  -- If the tables fit together, the backend deletes what it is asked to and at most 500 files
  -- have expired, then after `run_once` the tables fit together, no file that has expired is
  -- found, and every other file is found as before.
  pub run_once-live_only :
      (now : ℕ) (w : World) (pastes : List PasteRow) (metrics : Metrics)
      → IsSound w
      → length (expired file_expiry now w.files) ≤ 500
      → IsSound (run_once erase now w pastes metrics).world
        × ((core : Text)
            → find_file core (run_once erase now w pastes metrics).world.files
              ≡ live_only now (find_file core w.files))
  unfolding run_once
  run_once-live_only now w pastes metrics s few =
      let rows = expired_rows file_expiry now 500 w.files in
      let (s', found) = sweep_files-IsSound rows w s in
      (
        s',
        λ core.
            found core
            ∙ ap (λ b. unless_found b (find_file core w.files))
                (any-expired_rows file_expiry (has_core core) now 500 w.files few
                  ∙ any-expired now core w.files s.keyed)
            ∙ live_only-unless now (find_file core w.files),
      )
