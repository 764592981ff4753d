-- ===== src/Files/Keys.antt =====
-- Proofs about the rows of `files` (src/db.rs, src/routes/files.rs) under their primary key.
use uwuubox.Prelude.{
  ◌≡◌, ◌∙◌, ap, sym, refl, subst, Bool, Bool-cases, inl, inr, if_true, if_false, true, false, List,
  [], ◌∷◌, Option, none, some, ok, err, bytes_eq, bytes_eq_sound,
}
use uwuubox.Text.{Text}
use uwuubox.Storage.{is_safe_key}
use uwuubox.Objects.{ObjectRow, release_object}
use uwuubox.Files.Rows.{
  FileRow, World, Erase, Outcome, find_file, delete_row, remove_file, removed, release,
  delete_bytes, erased, after_release, then_thumb, release_thumb, removed_true, with_files,
  with_objects,
}
use uwuubox.Files.Removal.{delete_row-found, delete_row-absent, found_of, rest_of}

-- No core stands twice.
unfoldable pub IsKeyed : List FileRow → Type 0
IsKeyed [] = Unit
IsKeyed (row ∷ rows) = (find_file row.id_core rows ≡ none) × IsKeyed rows

find_file-miss :
    (core : Text) (row : FileRow) (rows : List FileRow)
    → find_file core (row ∷ rows) ≡ none
    → (bytes_eq row.id_core core ≡ false) × (find_file core rows ≡ none)
unfolding find_file
find_file-miss core row rows h = elim (Bool-cases (bytes_eq row.id_core core)) [
  | inl same ↦ (let e : some row ≡ none = sym (if_true _ _ same) ∙ h in cc)
  | inr other ↦ (other, sym (if_false _ _ other) ∙ h)
]

-- Deleting brings no row back.
pub find_file-delete_row :
    (core gone : Text) (rows : List FileRow)
    → find_file core rows ≡ none
    → find_file core (delete_row gone rows).1 ≡ none
unfolding delete_row find_file
find_file-delete_row core gone [] h = refl
find_file-delete_row core gone (row ∷ rows) h =
    let (other, rest) = find_file-miss core row rows h in
    elim (Bool-cases (bytes_eq row.id_core gone)) [
      | inl at ↦ rw at rest
      | inr apart ↦ rw (apart, other) (find_file-delete_row core gone rows rest)
    ]

pub delete_row-IsKeyed :
    (gone : Text) (rows : List FileRow) → IsKeyed rows → IsKeyed (delete_row gone rows).1
unfolding delete_row IsKeyed
delete_row-IsKeyed gone [] h = tt
delete_row-IsKeyed gone (row ∷ rows) (p, h) = elim (Bool-cases (bytes_eq row.id_core gone)) [
  | inl at ↦ rw at h
  | inr apart ↦
      rw apart (find_file-delete_row row.id_core gone rows p, delete_row-IsKeyed gone rows h)
]

-- A core that is deleted is gone.
pub find_file-deleted :
    (core : Text) (rows : List FileRow)
    → IsKeyed rows
    → find_file core (delete_row core rows).1 ≡ none
unfolding delete_row IsKeyed find_file
find_file-deleted core [] h = refl
find_file-deleted core (row ∷ rows) (p, h) = elim (Bool-cases (bytes_eq row.id_core core)) [
  | inl at ↦ rw at (subst (λ c. find_file c rows ≡ none) (bytes_eq_sound row.id_core core at) p)
  | inr apart ↦ rw (apart, apart) (find_file-deleted core rows h)
]

module _ (erase : Erase) where
  abbrev pub files_after : {A : Type 0} → Outcome A → List FileRow
  files_after o = o.1.files

  erased-files :
      (key : Text) (w : World) (o : Option Text) → files_after (erased erase key w o) ≡ w.files
  erased-files key w none = refl
  erased-files key w (some message) = refl

  delete_bytes-files : (key : Text) (w : World) → files_after (delete_bytes erase key w) ≡ w.files
  unfolding delete_bytes
  delete_bytes-files key w = elim (Bool-cases (is_safe_key key)) [
    | inl safe ↦ ap files_after (if_true _ _ safe) ∙ erased-files key w (erase key)
    | inr bad ↦ ap files_after (if_false _ _ bad)
  ]

  after_release-files :
      (key : Text) (w : World) (o : Option (Bool × List ObjectRow))
      → files_after (after_release erase key w o) ≡ w.files
  after_release-files key w none = refl
  after_release-files key w (some (false, objects)) = refl
  after_release-files key w (some (true, objects)) = delete_bytes-files key (with_objects w objects)

  pub release-files : (key : Text) (w : World) → files_after (release erase key w) ≡ w.files
  unfolding release
  release-files key w = after_release-files key w (release_object w.objects key)

  release_thumb-files :
      (o : Option Text) (w : World) → files_after (release_thumb erase o w) ≡ w.files
  release_thumb-files none w = refl
  release_thumb-files (some key) w = release-files key w

  removed_true-files : (o : Outcome Unit) → files_after (removed_true erase o) ≡ files_after o
  removed_true-files (ok done, w) = refl
  removed_true-files (err fault, w) = refl

  then_thumb-files :
      (key : Option Text) (o : Outcome Unit) → files_after (then_thumb erase key o) ≡ files_after o
  then_thumb-files key (err fault, w) = refl
  then_thumb-files key (ok done, w) =
      removed_true-files (release_thumb erase key w) ∙ release_thumb-files key w

  removed-files :
      (core : Text) (w : World) (found : Option FileRow) (rest : List FileRow)
      → delete_row core w.files ≡ (found, rest)
      → files_after (removed erase w (found, rest)) ≡ rest
  removed-files core w none rest e =
      sym (delete_row-absent core w.files (ap found_of e)) ∙ ap rest_of e
  removed-files core w (some row) rest e =
      then_thumb-files row.thumb_key (release erase row.storage_key (with_files w rest))
      ∙ release-files row.storage_key (with_files w rest)

  -- Whatever else fails, the row is deleted, and no other.
  pub remove_file-rows :
      (core : Text) (w : World)
      → files_after (remove_file erase core w) ≡ (delete_row core w.files).1
  unfolding remove_file
  remove_file-rows core w =
      removed-files core w (delete_row core w.files).0 (delete_row core w.files).1 refl

  -- Where there is no row, nothing happens.
  pub remove_file-absent :
      (core : Text) (w : World)
      → find_file core w.files ≡ none
      → remove_file erase core w ≡ (ok false, w)
  unfolding remove_file
  remove_file-absent core w h =
      ap (λ found. removed erase w (found, (delete_row core w.files).1))
        (delete_row-found core w.files ∙ h)
