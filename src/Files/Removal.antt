-- ===== src/Files/Removal.antt =====
-- Proofs about `remove_file` of src/routes/files.rs: what a removal does to the tables and the bytes.
use uwuubox.Files.Releasing.{freed, freed_same, row-Released}
use uwuubox.Prelude.{
  ℕ, ◌<◌, ◌≡◌, ◌∙◌, ap, sym, refl, subst, Bool, Bool-cases, inl, inr, if_true, if_false, true,
  false, List, [], ◌∷◌, arith, Option, none, some, ok, bytes_eq, if◌then◌else◌, ◌+◌,
}
use uwuubox.Text.{Text}
use uwuubox.Storage.{is_safe_key}
use uwuubox.Objects.References.{Counts, count}
use uwuubox.Files.Rows.{
  FileRow, World, Erase, delete_row, disk_get, remove_file, removed, find_file, with_files,
}
use uwuubox.Files.References.{
  refs_of, row_refs, held, Takes, delete_row-Takes, count-row_refs, Counts-count,
}

-- What a removal leaves: the row is gone and nothing else, the table counts what is left, and
-- exactly the bytes of the keys that lost their last reference are gone.
pub record Removes (core : Text) (w w' : World) : Type 0 where
  pub rows : w'.files ≡ (delete_row core w.files).1
  pub counted : Counts w'.objects (refs_of w'.files)
  pub bytes :
      (k : Text)
      → disk_get k w'.disk ≡ (
          if freed (count k (refs_of w.files)) (count k (refs_of w'.files))
          then none
          else disk_get k w.disk)

abbrev pub is_found : Option FileRow → Bool
is_found none = false
is_found (some row) = true

pub delete_row-found :
    (core : Text) (rows : List FileRow) → (delete_row core rows).0 ≡ find_file core rows
unfolding delete_row find_file
delete_row-found core [] = refl
delete_row-found core (row ∷ rows) = elim (Bool-cases (bytes_eq row.id_core core)) [
  | inl same ↦ rw same refl
  | inr other ↦ rw other (delete_row-found core rows)
]

abbrev pub found_of : Option FileRow × List FileRow → Option FileRow
found_of p = p.0

abbrev pub rest_of : Option FileRow × List FileRow → List FileRow
rest_of p = p.1

pub delete_row-absent :
    (core : Text) (rows : List FileRow)
    → (delete_row core rows).0 ≡ none
    → (delete_row core rows).1 ≡ rows
unfolding delete_row
delete_row-absent core [] h = refl
delete_row-absent core (row ∷ rows) h = elim (Bool-cases (bytes_eq row.id_core core)) [
  | inl same ↦ (let e : some row ≡ none = sym (ap found_of (if_true _ _ same)) ∙ h in cc)
  | inr other ↦
      ap rest_of (if_false _ _ other)
      ∙ ap (λ rest. row ∷ rest)
          (delete_row-absent core rows (sym (ap found_of (if_false _ _ other)) ∙ h))
]

more : (a b : ℕ) → 0 < a → 0 < a + b
more a b h = omega arith

module _ (erase : Erase) (works : (key : Text) → erase key ≡ none) where
  module _ (core : Text) (w : World) (counts : Counts w.objects (refs_of w.files))
      (small : (k : Text) → count k (refs_of w.files) < 2_147_483_648)
      (safe : (k : Text) → 0 < count k (refs_of w.files) → is_safe_key k ≡ true) where
    removes :
        (found : Option FileRow) (rest : List FileRow)
        → delete_row core w.files ≡ (found, rest)
        → ((k : Text) → Takes k w.files (found, rest))
        → (w' : World) × (removed erase w (found, rest) ≡ (ok (is_found found), w'))
          × Removes core w w'
    removes none rest e takes =
        let same : rest ≡ w.files =
          sym (ap (λ p. p.1) e) ∙ delete_row-absent core w.files (ap (λ p. p.0) e) in
        (
          w,
          refl,
          record {
            rows = sym (ap (λ p. p.1) e ∙ same);
            counted = counts;
            bytes = λ k. sym (if_false _ _ (freed_same (count k (refs_of w.files))));
          },
        )
    removes (some row) rest e takes =
        let kept = refs_of rest in
        let split : (k : Text) → count k (refs_of w.files) ≡ count k (row_refs row kept) =
          λ k. takes k ∙ sym (count-row_refs k row kept) in
        let (w', done, r) =
          row-Released erase works row kept (with_files w rest)
            (Counts-count w.objects (refs_of w.files) (row_refs row kept) split counts)
            (λ k. subst (λ n. n < 2_147_483_648) (split k) (small k))
            (λ k h.
              safe k (subst (λ n. 0 < n) (sym (takes k)) (more (held k row) (count k kept) h))) in
        (
          w',
          done,
          record {
            rows = r.same_files ∙ sym (ap (λ p. p.1) e);
            counted =
                subst (λ files. Counts w'.objects (refs_of files)) (sym r.same_files) r.counted;
            bytes = λ k.
                r.bytes k
                ∙ ap (λ b. if b then none else disk_get k w.disk)
                    (ap (λ n. freed n (count k kept)) (sym (split k))
                      ∙ ap (λ files. freed (count k (refs_of w.files)) (count k (refs_of files)))
                          (sym r.same_files));
          },
        )

    -- If the table of objects counts exactly the references of the rows of files, each fewer
    -- than 2^31 and under a safe key, and the backend deletes what it is asked to, then
    -- `remove_file` says whether there was such a row, takes out that row and no other, the
    -- table counts exactly what the rest refers to, and of the bytes exactly those whose last
    -- reference went are gone.
    pub remove_file-Removes :
        (w' : World) × (remove_file erase core w ≡ (ok (is_found (find_file core w.files)), w'))
        × Removes core w w'
    unfolding remove_file
    remove_file-Removes =
        let (w', e, r) =
          removes (delete_row core w.files).0 (delete_row core w.files).1 refl
            (λ k. delete_row-Takes k core w.files) in
        (w', e ∙ ap (λ found. (ok (is_found found), w')) (delete_row-found core w.files), r)
