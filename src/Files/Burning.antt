-- ===== src/Files/Burning.antt =====
-- Proofs about `raw` of src/routes/files.rs on a file that burns: requests read the bytes at the same
-- time, and one of them gets them. Others run between the two halves of `burn`, `collect_all` and
-- `take_once`, or not.
use uwuubox.Files.Keys.{
  remove_file-rows, IsKeyed, find_file-deleted, delete_row-IsKeyed, find_file-delete_row,
  remove_file-absent,
}
use uwuubox.Prelude.{
  map, ℕ, ◌+◌, ◌≡◌, Bool, true, List, Bytes, [], ◌∷◌, Option, some, Result, ok, err, get_elem?, set,
  refl, ap, ◌⊎◌, inl, ◌∙◌, suc, inr, arith, false, none, zero, subst, sym,
}
use uwuubox.Text.{Text}
use uwuubox.Errors.{Fault}
use uwuubox.Range.{RangeOutcome}
use uwuubox.ObjectCrypt.{Aead}
use uwuubox.Storage.{Store}
use uwuubox.Files.Rows.{FileRow, World, Disk, Erase, Outcome, remove_file, delete_row, find_file}
use uwuubox.Files.Raw.{Answer, after_removal, collect_all, take_once, burn, burn_with}

-- Where a request stands, with the range that it asked for.
pub data Phase : Type 0 where
  waiting : RangeOutcome → Phase
  collected : RangeOutcome → Bytes → Phase
  answered : Answer → Phase
  refused : Phase

abbrev pub one : Phase → ℕ
one (waiting outcome) = 0
one (collected outcome all) = 0
one (answered answer) = 1
one refused = 0

-- How many requests got an answer.
unfoldable pub answers : List Phase → ℕ
answers [] = 0
answers (p ∷ phases) = one p + answers phases

abbrev pub phase_of : Result Fault Answer → Phase
phase_of (ok answer) = answered answer
phase_of (err fault) = refused

abbrev pub Race : Type 0
Race = World × List Phase

-- The request at a place gives its answer, or its error.
abbrev pub settle : List Phase → ℕ → Outcome Answer → Race
settle phases i o = (o.1, set phases i (phase_of o.0))

module _ (from_utf8 : Bytes → Option Text) (valid_header : Text → Bool) (a : Aead)
    (view : Disk → Store) (erase : Erase) (row : FileRow) (full_len : ℕ) where
  pub data Step : Race → Race → Type 0 where
    -- A request has read all the bytes.
    gather :
        (w : World) (phases : List Phase) (i : ℕ) (outcome : RangeOutcome) (all : Bytes)
        → get_elem? phases i ≡ some (waiting outcome)
        → collect_all from_utf8 valid_header a view erase w row full_len ≡ ok all
        → Step (w, phases) (w, set phases i (collected outcome all))
    -- A request could not read them.
    fail :
        (w : World) (phases : List Phase) (i : ℕ) (outcome : RangeOutcome) (fault : Fault)
        → get_elem? phases i ≡ some (waiting outcome)
        → collect_all from_utf8 valid_header a view erase w row full_len ≡ err fault
        → Step (w, phases) (w, set phases i refused)
    -- A request that has the bytes removes the row, and answers or not.
    finish :
        (w : World) (phases : List Phase) (i : ℕ) (outcome : RangeOutcome) (all : Bytes)
        → get_elem? phases i ≡ some (collected outcome all)
        → Step
            (w, phases)
            (settle phases i
              (take_once from_utf8 valid_header a view erase w row outcome full_len all))
    -- A request runs from its first read to its end, and no one between.
    run :
        (w : World) (phases : List Phase) (i : ℕ) (outcome : RangeOutcome)
        → get_elem? phases i ≡ some (waiting outcome)
        → Step
            (w, phases)
            (settle phases i (burn from_utf8 valid_header a view erase w row outcome full_len))
    -- Anyone removes a file: its owner, the sweeper, a request for another file.
    remove :
        (w : World) (phases : List Phase) (core : Text)
        → Step (w, phases) ((remove_file erase core w).1, phases)

  pub data Reaches (start : Race) : Race → Type 0 where
    here : Reaches start start
    next : (r s : Race) → Reaches start r → Step r s → Reaches start s

-- Either no one has an answer, or one has and the row is gone.
abbrev pub Settled : Text → List FileRow → ℕ → Type 0
Settled core files n = (n ≡ 0) ⊎ ((n ≡ 1) × (find_file core files ≡ none))

one-cases : (p : Phase) → (one p ≡ 0) ⊎ (one p ≡ 1)
one-cases (waiting outcome) = inl refl
one-cases (collected outcome all) = inl refl
one-cases (answered answer) = inr refl
one-cases refused = inl refl

answers-set :
    (phases : List Phase) (i : ℕ) (p q : Phase)
    → get_elem? phases i ≡ some p
    → one p ≡ 0
    → answers (set phases i q) ≡ one q + answers phases
unfolding answers
answers-set [] i p q at h = cc
answers-set (x ∷ phases) zero p q at h =
    let same : x ≡ p = cc in let e : one x ≡ 0 = ap one same ∙ h in omega arith
answers-set (x ∷ phases) (suc i) p q at h = let e = answers-set phases i p q at h in omega arith

answers-waiting : (outcomes : List RangeOutcome) → answers (map waiting outcomes) ≡ 0
unfolding answers
answers-waiting [] = refl
answers-waiting (outcome ∷ outcomes) = let e = answers-waiting outcomes in omega arith

module _ (from_utf8 : Bytes → Option Text) (valid_header : Text → Bool) (a : Aead)
    (view : Disk → Store) (erase : Erase) (row : FileRow) (full_len : ℕ) where
  abbrev IsFair : Race → Type 0
  IsFair (w, phases) = IsKeyed w.files × Settled row.id_core w.files (answers phases)

  removal-files :
      (outcome : RangeOutcome) (all : Bytes) (o : Outcome Bool)
      → (after_removal from_utf8 valid_header a view erase row outcome full_len all o).1.files
        ≡ o.1.files
  removal-files outcome all (err fault, w) = refl
  removal-files outcome all (ok false, w) = refl
  removal-files outcome all (ok true, w) = refl

  unchanged :
      (files : List FileRow) (phases : List Phase) (i : ℕ) (p q : Phase)
      → get_elem? phases i ≡ some p
      → one p ≡ 0
      → one q ≡ 0
      → Settled row.id_core files (answers phases)
      → Settled row.id_core files (answers (set phases i q))
  unchanged files phases i p q at h k c =
      let e = answers-set phases i p q at h in
      elim c [ inl zero_yet ↦ inl (omega arith) | inr (one_yet, gone) ↦ inr (omega arith, gone) ]

  finished :
      (w : World) (phases : List Phase) (i : ℕ) (p : Phase) (outcome : RangeOutcome) (all : Bytes)
      → get_elem? phases i ≡ some p
      → one p ≡ 0
      → IsFair (w, phases)
      → (o : Outcome Answer)
      → o ≡ take_once from_utf8 valid_header a view erase w row outcome full_len all
      → IsFair (settle phases i o)
  unfolding take_once
  finished w phases i p outcome all at idle (k, c) o e =
      let ending = after_removal from_utf8 valid_header a view erase row outcome full_len all in
      let rows : o.1.files ≡ (delete_row row.id_core w.files).1 =
        ap (λ o. o.1.files) e
        ∙ removal-files outcome all (remove_file erase row.id_core w)
        ∙ remove_file-rows erase row.id_core w in
      let gone : find_file row.id_core o.1.files ≡ none =
        ap (find_file row.id_core) rows ∙ find_file-deleted row.id_core w.files k in
      let n = answers-set phases i p (phase_of o.0) at idle in
      (
        subst IsKeyed (sym rows) (delete_row-IsKeyed row.id_core w.files k),
        elim c [
          | inl zero_yet ↦ elim (one-cases (phase_of o.0)) [
            | inl none_now ↦ inl (omega arith)
            | inr one_now ↦ inr (omega arith, gone)
          ]
          | inr (one_yet, absent) ↦
              (let lost : one (phase_of o.0) ≡ 0 =
                  ap (λ o. one (phase_of o.0))
                    (e ∙ ap ending (remove_file-absent erase row.id_core w absent)) in
                inr (omega arith, gone))
        ],
      )

  burned :
      (w : World) (phases : List Phase) (i : ℕ) (outcome : RangeOutcome)
      → get_elem? phases i ≡ some (waiting outcome)
      → IsFair (w, phases)
      → (r : Result Fault Bytes)
      → IsFair
          (settle phases i (burn_with from_utf8 valid_header a view erase w row outcome full_len r))
  burned w phases i outcome at (k, c) (err fault) =
      (k, unchanged w.files phases i (waiting outcome) refused at refl refl c)
  burned w phases i outcome at h (ok all) =
      finished w phases i (waiting outcome) outcome all at refl h _ refl

  Step-IsFair :
      (r s : Race) → Step from_utf8 valid_header a view erase row full_len r s → IsFair r → IsFair s
  unfolding burn
  Step-IsFair r s (gather w phases i outcome all at read) (k, c) =
      (k, unchanged w.files phases i (waiting outcome) (collected outcome all) at refl refl c)
  Step-IsFair r s (fail w phases i outcome fault at read) (k, c) =
      (k, unchanged w.files phases i (waiting outcome) refused at refl refl c)
  Step-IsFair r s (finish w phases i outcome all at) h =
      finished w phases i (collected outcome all) outcome all at refl h _ refl
  Step-IsFair r s (run w phases i outcome at) h =
      burned w phases i outcome at h
        (collect_all from_utf8 valid_header a view erase w row full_len)
  Step-IsFair r s (remove w phases core) (k, c) =
      let rows = remove_file-rows erase core w in
      (
        subst IsKeyed (sym rows) (delete_row-IsKeyed core w.files k),
        elim c [
          | inl zero_yet ↦ inl zero_yet
          | inr (one_yet, absent) ↦ inr (
            one_yet,
            ap (find_file row.id_core) rows ∙ find_file-delete_row row.id_core core w.files absent,
          )
        ],
      )

  Reaches-IsFair :
      (start r : Race)
      → Reaches from_utf8 valid_header a view erase row full_len start r
      → IsFair start
      → IsFair r
  Reaches-IsFair start r here h = h
  Reaches-IsFair start r (next s t before step) h =
      Step-IsFair s t step (Reaches-IsFair start s before h)

  -- However any number of requests for a burning file, each with its range, read its bytes, fail,
  -- remove the row and answer in turns, or run through `burn` at once, with removals of any files
  -- between their steps, from rows with unique cores and no request begun, either none of them
  -- has an answer with the bytes, or exactly one has and no row has the core of the file.
  pub Reaches-once :
      (outcomes : List RangeOutcome) (w w' : World) (phases : List Phase)
      → IsKeyed w.files
      → Reaches from_utf8 valid_header a view erase row full_len
          (w, map waiting outcomes)
          (w', phases)
      → Settled row.id_core w'.files (answers phases)
  Reaches-once outcomes w w' phases k reached =
      (Reaches-IsFair (w, map waiting outcomes) (w', phases) reached
        (k, inl (answers-waiting outcomes))).1
