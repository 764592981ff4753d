-- ===== src/Upload/Cores.antt =====
-- Proofs about the claiming of cores: src/db.rs `try_claim_core`, and the tries of
-- src/routes/upload.rs and src/routes/pastes.rs.
use uwuubox.Prelude.{
  either_first, either_last, ◌≡◌, ◌∙◌, ap, sym, refl, subst, Bool, Bool-cases, inl, inr, if_true,
  if_false, true, false, List, [], ◌∷◌, ◌++◌, Option, none, some, any, All, bytes_eq, bytes_eq_refl,
  take, if◌then◌else◌,
}
use uwuubox.Text.{Text}
use uwuubox.Upload.Commit.{try_claim_core, claim_first, claim_core}

abbrev pub is_in : Text → List Text → Bool
is_in core used = any (bytes_eq core) used

-- The cores among the answers.
abbrev pub cores_of : List (Option Text) → List Text
cores_of [] = []
cores_of (none ∷ answers) = cores_of answers
cores_of (some core ∷ answers) = core ∷ cores_of answers

-- What a series of requests is answered, each with its candidates, the latest first.
unfoldable pub claims : List (List Text) → List Text → List (Option Text) × List Text
unfolding claim_core
claims [] used = ([], used)
claims (candidates ∷ requests) used =
    let (answers, after) = claims requests used in
    let (answer, now_used) = claim_core candidates after in (answer ∷ answers, now_used)

-- A request gets one of the candidates that was not taken, or all of them were.
pub data Answers (candidates taken : List Text) : Option Text → Type 0 where
  got :
      (core : Text)
      → is_in core candidates ≡ true
      → is_in core taken ≡ false
      → Answers candidates taken (some core)
  refused : All (λ core. is_in core taken ≡ true) candidates → Answers candidates taken none

-- The requests after each other: what is taken is what was used at first and what earlier ones got.
pub data AreAnswered (used : List Text) : List (List Text) → List (Option Text) → Type 0 where
  none_yet : AreAnswered used [] []
  another :
      (candidates : List Text) (requests : List (List Text)) (answer : Option Text)
      (answers : List (Option Text))
      → AreAnswered used requests answers
      → Answers (take 5 candidates) (cores_of answers ++ used) answer
      → AreAnswered used (candidates ∷ requests) (answer ∷ answers)

abbrev after_answer : Option Text → List Text → List Text
after_answer none used = used
after_answer (some core) used = core ∷ used

-- An answer, and the cores that are used then.
abbrev Claimed : List Text → List Text → Option Text × List Text → Type 0
Claimed candidates used (answer, after) =
    Answers candidates used answer × (after ≡ after_answer answer used)

skip :
    (candidate : Text) (candidates used : List Text) (o : Option Text × List Text)
    → is_in candidate used ≡ true
    → Claimed candidates used o
    → Claimed (candidate ∷ candidates) used o
skip candidate candidates used (_, after) taken (got core among free, e) =
    (got core (either_last (bytes_eq core candidate) (is_in core candidates) among) free, e)
skip candidate candidates used (_, after) taken (refused all, e) = (refused (taken, all), e)

-- What `try_claim_core` does.
data Tried (core : Text) (used : List Text) : Bool × List Text → Type 0 where
  lost : is_in core used ≡ true → Tried core used (false, used)
  won : is_in core used ≡ false → Tried core used (true, core ∷ used)

try_claim_core-Tried : (core : Text) (used : List Text) → Tried core used (try_claim_core used core)
unfolding try_claim_core
try_claim_core-Tried core used = elim (Bool-cases (is_in core used)) [
  | inl taken ↦ subst (Tried core used) (sym (if_true _ _ taken)) (lost taken)
  | inr free ↦ subst (Tried core used) (sym (if_false _ _ free)) (won free)
]

Tried-Claimed :
    (candidate : Text) (candidates used : List Text) (o : Bool × List Text)
    → Tried candidate used o
    → Claimed candidates used (claim_first candidates used)
    → Claimed
        (candidate ∷ candidates)
        used
        (if o.0 then (some candidate, o.1) else claim_first candidates o.1)
Tried-Claimed candidate candidates used _ (lost taken) later =
    skip candidate candidates used _ taken later
Tried-Claimed candidate candidates used _ (won free) later = (
  got candidate
      (either_first (bytes_eq candidate candidate) (is_in candidate candidates)
        (bytes_eq_refl candidate))
      free,
  refl,
)

claim_first-Claimed :
    (candidates used : List Text) → Claimed candidates used (claim_first candidates used)
unfolding claim_first
claim_first-Claimed [] used = (refused tt, refl)
claim_first-Claimed (candidate ∷ candidates) used =
    Tried-Claimed candidate candidates used (try_claim_core used candidate)
      (try_claim_core-Tried candidate used) (claim_first-Claimed candidates used)

claims-used :
    (requests : List (List Text)) (used : List Text)
    → AreAnswered used requests (claims requests used).0
      × ((claims requests used).1 ≡ cores_of (claims requests used).0 ++ used)
unfolding claims claim_core
claims-used [] used = (none_yet, refl)
claims-used (candidates ∷ requests) used =
    let (answered, e) = claims-used requests used in
    let (served, now) = claim_first-Claimed (take 5 candidates) (claims requests used).1 in
    (
      another candidates requests _ _ answered (
          subst
            (λ taken.
              Answers (take 5 candidates) taken
                (claim_first (take 5 candidates) (claims requests used).1).0)
            e served),
      now ∙ taken _ (claims requests used).0 _ used e,
    )
  where
    taken :
        (answer : Option Text) (answers : List (Option Text)) (after used : List Text)
        → after ≡ cores_of answers ++ used
        → after_answer answer after ≡ cores_of (answer ∷ answers) ++ used
    taken none answers after used e = e
    taken (some core) answers after used e = ap (λ rest. core ∷ rest) e

-- However requests claim cores one after the other, each gets one of its first five candidates that
-- was neither used at first nor given to an earlier request, or gets none, and then all five were.
pub claims-AreAnswered :
    (requests : List (List Text)) (used : List Text)
    → AreAnswered used requests (claims requests used).0
claims-AreAnswered requests used = (claims-used requests used).0
