-- ===== src/Config/Table.antt =====
-- A table of keys and values, as `instance_config` of the database: the last write of a key counts.
use uwuubox.Prelude.{
  List, Option, ◌≡◌, ◌∷◌, none, ◌∙◌, if◌then◌else◌, some, [], refl, bytes_eq, ap, Bool-cases, sym,
  inl, inr, bytes_eq_sound, false, subst,
}
use uwuubox.Text.{Text}

abbrev pub Rows : Type 0
Rows = List (Text × Text)

unfoldable pub lookup : Text → Rows → Option Text
lookup k [] = none
lookup k ((k', v) ∷ rows) = if bytes_eq k k' then some v else lookup k rows

-- `INSERT … ON CONFLICT (key) DO UPDATE`
unfoldable pub upsert : Text → Text → Rows → Rows
upsert k v [] = (k, v) ∷ []
upsert k v ((k', w) ∷ rows) = if bytes_eq k' k then (k', v) ∷ rows else (k', w) ∷ upsert k v rows

unfoldable pub upsert_all : Rows → Rows → Rows
unfolding upsert
upsert_all [] rows = rows
upsert_all ((k, v) ∷ pairs) rows = upsert_all pairs (upsert k v rows)

abbrev pub or_else : Option Text → Option Text → Option Text
or_else none o = o
or_else (some v) o = some v

-- The last value that a list of writes gives to a key.
abbrev pub last_of : Text → Rows → Option Text
last_of k [] = none
last_of k ((k', v) ∷ pairs) = or_else (last_of k pairs) (if bytes_eq k k' then some v else none)

lookup-upsert :
    (k k' v : Text) (rows : Rows)
    → lookup k (upsert k' v rows) ≡ or_else (if bytes_eq k k' then some v else none) (lookup k rows)
unfolding lookup upsert
lookup-upsert k k' v [] = elim (Bool-cases (bytes_eq k k')) [
  | inl same ↦ rw same refl
  | inr other ↦ rw other refl
]
lookup-upsert k k' v ((j, w) ∷ rows) = elim (Bool-cases (bytes_eq j k')) [
  | inl same ↦
      (let e = bytes_eq_sound j k' same in
        elim (Bool-cases (bytes_eq k k')) [
          | inl h ↦ rw (same, e, h) refl
          | inr h ↦ rw (same, e, h) refl
        ])
  | inr other ↦ elim (Bool-cases (bytes_eq k j)) [
    | inl h ↦
        (let apart : bytes_eq k k' ≡ false =
            subst (λ t. bytes_eq t k' ≡ false) (sym (bytes_eq_sound k j h)) other in
          rw (other, apart, h) refl)
    | inr h ↦ rw (other, h) (lookup-upsert k k' v rows)
  ]
]

or_else_assoc : (a b c : Option Text) → or_else (or_else a b) c ≡ or_else a (or_else b c)
or_else_assoc none b c = refl
or_else_assoc (some a) b c = refl

pub lookup-upsert_all :
    (k : Text) (pairs rows : Rows)
    → lookup k (upsert_all pairs rows) ≡ or_else (last_of k pairs) (lookup k rows)
unfolding upsert_all
lookup-upsert_all k [] rows = refl
lookup-upsert_all k ((k', v) ∷ pairs) rows =
    lookup-upsert_all k pairs (upsert k' v rows)
    ∙ ap (or_else (last_of k pairs)) (lookup-upsert k k' v rows)
    ∙ sym (or_else_assoc (last_of k pairs) (if bytes_eq k k' then some v else none) (lookup k rows))
