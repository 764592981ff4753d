-- ===== src/Errors/Escaping.antt =====
-- Proofs about src/error.rs: what `esc` writes has no markup, and a reader gets the text back.
use uwuubox.Prelude.{
  ℕ, [], ◌∷◌, ◌++◌, ◌≡◌, ◌∙◌, refl, All, All-append, arith, codes, ◌==◌, ◌||◌, false, true, Bool,
  Bool-cases, inl, inr, if_true, if_false, subst, sym,
}
use uwuubox.Text.{Text}
use uwuubox.Errors.{esc, escaped}

-- The characters that begin a tag, end one, or end a quoted attribute.
abbrev pub is_markup : ℕ → Bool
is_markup c = (c == b'<') || (c == b'>') || (c == b'"')

-- How a browser reads the four entities; any other text stands for itself.
pub data Reads : Text → Text → Type 0 where
  done : Reads [] []
  amp : {s t : Text} → Reads s t → Reads (codes "&amp;" ++ s) (b'&' ∷ t)
  lt : {s t : Text} → Reads s t → Reads (codes "&lt;" ++ s) (b'<' ∷ t)
  gt : {s t : Text} → Reads s t → Reads (codes "&gt;" ++ s) (b'>' ∷ t)
  quot : {s t : Text} → Reads s t → Reads (codes "&quot;" ++ s) (b'"' ∷ t)
  other : (c : ℕ) {s t : Text} → (c == b'&') ≡ false → Reads s t → Reads (c ∷ s) (c ∷ t)

abbrev pub Shown : Text → ℕ → Type 0
Shown e c = All (λ d. is_markup d ≡ false) e × ((s t : Text) → Reads s t → Reads (e ++ s) (c ∷ t))

==→eq : (a b : ℕ) → (a == b) ≡ true → a ≡ b
==→eq a b h = ground arith

unmarked_other :
    (c : ℕ) → (c == b'<') ≡ false → (c == b'>') ≡ false → (c == b'"') ≡ false → is_markup c ≡ false
unmarked_other c p q r = ground arith

escaped-Shown : (c : ℕ) → Shown (escaped c) c
escaped-Shown c = elim (Bool-cases (c == b'&')) [
  | inl is_amp ↦ subst (Shown (escaped c)) (sym (==→eq c b'&' is_amp)) (
      subst (λ e. Shown e b'&') (sym (if_true _ _ is_amp))
        ((refl, (refl, (refl, (refl, (refl, tt))))), λ s t r. amp r))
  | inr not_amp ↦ elim (Bool-cases (c == b'<')) [
    | inl is_lt ↦ subst (Shown (escaped c)) (sym (==→eq c b'<' is_lt)) (
        subst (λ e. Shown e b'<') (sym (if_false _ _ not_amp ∙ if_true _ _ is_lt))
          ((refl, (refl, (refl, (refl, tt)))), λ s t r. lt r))
    | inr not_lt ↦ elim (Bool-cases (c == b'>')) [
      | inl is_gt ↦ subst (Shown (escaped c)) (sym (==→eq c b'>' is_gt)) (
          subst (λ e. Shown e b'>')
            (sym (if_false _ _ not_amp ∙ if_false _ _ not_lt ∙ if_true _ _ is_gt))
            ((refl, (refl, (refl, (refl, tt)))), λ s t r. gt r))
      | inr not_gt ↦ elim (Bool-cases (c == b'"')) [
        | inl is_quot ↦ subst (Shown (escaped c)) (sym (==→eq c b'"' is_quot)) (
            subst (λ e. Shown e b'"')
              (sym (
                if_false _ _ not_amp
                ∙ if_false _ _ not_lt
                ∙ if_false _ _ not_gt
                ∙ if_true _ _ is_quot))
              ((refl, (refl, (refl, (refl, (refl, (refl, tt)))))), λ s t r. quot r))
        | inr not_quot ↦
            subst (λ e. Shown e c)
              (sym (
                if_false _ _ not_amp
                ∙ if_false _ _ not_lt
                ∙ if_false _ _ not_gt
                ∙ if_false _ _ not_quot))
              ((unmarked_other c not_lt not_gt not_quot, tt), λ s t r. other c not_amp r)
      ]
    ]
  ]
]

-- What `esc` writes has no angle bracket and no double quote, and a browser that reads the four
-- entities back gets the text.
pub esc-Reads : (s : Text) → All (λ c. is_markup c ≡ false) (esc s) × Reads (esc s) s
unfolding esc
esc-Reads [] = (tt, done)
esc-Reads (c ∷ s) =
    let (plain, reads) = esc-Reads s in
    let (plain_c, reads_c) = escaped-Shown c in
    (
      All-append (λ d. is_markup d ≡ false) (escaped c) (esc s) plain_c plain,
      reads_c (esc s) s reads,
    )
