-- ===== src/Sweep.antt =====
-- src/expiry.rs: the sweep that removes expired files and pastes, and its two queries of src/db.rs.
pub mod Ordering
pub mod Progress
mod Examples
use uwuubox.Prelude.{
  ℕ, ◌+◌, Option, Bool, List, Result, ok, err, [], ◌∷◌, none, some, bytes_eq, if◌then◌else◌, ltb,
  take, length,
}
use uwuubox.Text.{Text}
use uwuubox.Pastes.{PasteRow}
use uwuubox.Files.Rows.{FileRow, World, Erase, Outcome, is_expired, remove_file}

module _ {A : Type 0} (expires_at : A → Option ℕ) where
  -- The rows that a time has passed for.
  unfoldable pub expired : ℕ → List A → List A
  unfolding is_expired
  expired now [] = []
  expired now (row ∷ rows) =
      let rest = expired now rows in if is_expired now (expires_at row) then row ∷ rest else rest

  abbrev pub sooner : Option ℕ → Option ℕ → Bool
  sooner none b = Bool.false
  sooner (some a) none = Bool.true
  sooner (some a) (some b) = ltb a b

  -- `ORDER BY expires_at`
  unfoldable pub insert_by_time : A → List A → List A
  insert_by_time row [] = row ∷ []
  insert_by_time row (r ∷ rows) =
      let rest = insert_by_time row rows in
      if sooner (expires_at r) (expires_at row) then r ∷ rest else row ∷ r ∷ rows

  unfoldable pub by_time : List A → List A
  unfolding insert_by_time
  by_time [] = []
  by_time (row ∷ rows) = insert_by_time row (by_time rows)

  -- `expired_files` and `expired_pastes`
  unfoldable pub expired_rows : ℕ → ℕ → List A → List A
  unfolding expired by_time
  expired_rows now limit rows = take limit (by_time (expired now rows))

abbrev pub file_expiry : FileRow → Option ℕ
file_expiry row = row.expires_at

abbrev pub paste_expiry : PasteRow → Option ℕ
paste_expiry row = row.expires_at

-- A failed removal is logged, and the sweep goes on.
abbrev pub counted : {E : Type 0} → Result E Bool → ℕ
counted (ok Bool.true) = 1
counted (ok Bool.false) = 0
counted (err fault) = 0

module _ (erase : Erase) where
  unfoldable pub sweep_files : List FileRow → World → ℕ × World
  unfolding remove_file
  sweep_files [] w = (0, w)
  sweep_files (row ∷ rows) w =
      let (removed, w1) = remove_file erase row.id_core w in
      let (n, w2) = sweep_files rows w1 in (counted removed + n, w2)

-- `DELETE FROM pastes WHERE id_core = …`
unfoldable pub delete_paste : Text → List PasteRow → List PasteRow
delete_paste core [] = []
delete_paste core (row ∷ rows) =
    let rest = delete_paste core rows in if bytes_eq row.id_core core then rest else row ∷ rest

unfoldable pub sweep_pastes : List PasteRow → List PasteRow → ℕ × List PasteRow
unfolding delete_paste
sweep_pastes [] pastes = (0, pastes)
sweep_pastes (row ∷ rows) pastes =
    let (n, left) = sweep_pastes rows (delete_paste row.id_core pastes) in (1 + n, left)

-- The counters of the sweeper.
pub record Metrics : Type 0 where
  pub sweeper_runs : ℕ
  pub files_swept : ℕ
  pub pastes_swept : ℕ

-- What a run leaves behind.
pub record Swept : Type 0 where
  pub files : ℕ
  pub pastes : ℕ
  pub world : World
  pub paste_rows : List PasteRow
  pub metrics : Metrics

-- `run_once`; the queries are taken not to fail.
unfoldable pub run_once : Erase → ℕ → World → List PasteRow → Metrics → Swept
unfolding expired_rows sweep_files sweep_pastes
run_once erase now w paste_rows metrics =
    let (files, world) = sweep_files erase (expired_rows file_expiry now 500 w.files) w in
    let (pastes, left) = sweep_pastes (expired_rows paste_expiry now 500 paste_rows) paste_rows in
    record {
      files = files;
      pastes = pastes;
      world = world;
      paste_rows = left;
      metrics = record {
        sweeper_runs = metrics.sweeper_runs + 1;
        files_swept = metrics.files_swept + files;
        pastes_swept = metrics.pastes_swept + pastes;
      };
    }
