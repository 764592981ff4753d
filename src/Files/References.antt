-- ===== src/Files/References.antt =====
-- The references to objects that the rows of `files` hold: src/routes/files.rs, `remove_file`.
use uwuubox.Prelude.{
  ℕ, suc, ◌+◌, ◌≡◌, ◌∙◌, ap, Bool, Bool-cases, inl, inr, true, false, List, [], ◌∷◌, arith, Option,
  none, some, bytes_eq, if◌then◌else◌,
}
use uwuubox.Text.{Text}
use uwuubox.Objects.{ObjectRow}
use uwuubox.Objects.References.{Counts, count, as_refcount}
use uwuubox.Files.Rows.{FileRow, delete_row}

abbrev pub with_thumb : Option Text → List Text → List Text
with_thumb none refs = refs
with_thumb (some key) refs = key ∷ refs

-- The references of a row, in front of others.
abbrev pub row_refs : FileRow → List Text → List Text
row_refs row refs = row.storage_key ∷ with_thumb row.thumb_key refs

unfoldable pub refs_of : List FileRow → List Text
refs_of [] = []
refs_of (row ∷ rows) = row_refs row (refs_of rows)

-- A table that counts some references counts the same in another order.
pub Counts-count :
    (rows : List ObjectRow) (refs refs' : List Text)
    → ((k : Text) → count k refs ≡ count k refs')
    → Counts rows refs
    → Counts rows refs'
unfolding Counts
Counts-count rows refs refs' same (u, c) = (u, λ k. c k ∙ ap as_refcount (same k))

up : (p : Bool) (n : ℕ) → ((if p then suc n else n) ≡ (if p then 1 else 0) + n)
up true n = omega arith
up false n = omega arith

pub count-cons :
    (k r : Text) (refs : List Text) → count k (r ∷ refs) ≡ count k (r ∷ []) + count k refs
unfolding count
count-cons k r refs = up (bytes_eq r k) (count k refs)

pub count-with_thumb :
    (k : Text) (o : Option Text) (refs : List Text)
    → count k (with_thumb o refs) ≡ count k (with_thumb o []) + count k refs
unfolding count
count-with_thumb k none refs = omega arith
count-with_thumb k (some r) refs = count-cons k r refs

abbrev pub held : Text → FileRow → ℕ
held k row = count k (row_refs row [])

pub count-row_refs :
    (k : Text) (row : FileRow) (refs : List Text)
    → count k (row_refs row refs) ≡ held k row + count k refs
count-row_refs k row refs =
    let e = count-cons k row.storage_key (with_thumb row.thumb_key refs) in
    let f = count-cons k row.storage_key (with_thumb row.thumb_key []) in
    let g = count-with_thumb k row.thumb_key refs in omega arith

-- What the statement takes out of the references.
abbrev pub Takes : Text → List FileRow → Option FileRow × List FileRow → Type 0
Takes k rows (none, rest) = Unit
Takes k rows (some row, rest) = count k (refs_of rows) ≡ held k row + count k (refs_of rest)

pub delete_row-Takes : (k core : Text) (rows : List FileRow) → Takes k rows (delete_row core rows)
unfolding delete_row refs_of
delete_row-Takes k core [] = tt
delete_row-Takes k core (row ∷ rows) = elim (Bool-cases (bytes_eq row.id_core core)) [
  | inl same ↦ rw (same, delete_row) (count-row_refs k row (refs_of rows))
  | inr other ↦ rw (other, delete_row) (kept (delete_row core rows) (delete_row-Takes k core rows))
]
  where
    kept :
        (found : Option FileRow × List FileRow)
        → Takes k rows found
        → Takes k (row ∷ rows) (found.0, row ∷ found.1)
    kept (none, rest) h = tt
    kept (some taken, rest) h =
        let e = count-row_refs k row (refs_of rows) in
        let f = count-row_refs k row (refs_of rest) in omega arith
