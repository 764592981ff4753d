-- ===== src/Gc/Safety.antt =====
-- Proofs about `reclaim` of src/routes/gc.rs: whatever the report says by then, nothing in use is lost.
use uwuubox.Gc.{resume}
use uwuubox.Prelude.{
  ℕ, zero, suc, ◌<◌, ◌≡◌, ◌∙◌, ◌⊎◌, ap, sym, refl, subst, Bool, Bool-cases, inl, inr, if_true,
  if_false, true, false, List, [], ◌∷◌, Option, none, some, ok, err, any, arith, bytes_eq,
  bytes_eq_sound, ◌||◌,
}
use uwuubox.Prelude.Int.{ℤ}
use uwuubox.Text.{Text}
use uwuubox.Storage.{is_safe_key}
use uwuubox.Objects.References.{Counts, count, refcount_of, as_refcount}
use uwuubox.Files.Rows.{World, Erase, Outcome, delete_bytes, disk_get, erased}
use uwuubox.Files.References.{refs_of}
use uwuubox.Files.Releasing.{disk_get-delete}
use uwuubox.Gc.{
  Orphan, Inventory, is_missing, is_held, is_referenced, reclaim_one, reclaim, erase_stored,
  dropped, stored_bytes, add_u64,
}

-- A file's bytes, its thumbnail, or an avatar.
abbrev pub IsUsed : World → List Text → Text → Type 0
IsUsed w avatar_keys k =
    (0 < count k (refs_of w.files)) ⊎ (any (λ key. bytes_eq key k) avatar_keys ≡ true)

-- The tables are as they were, and so are the bytes in use.
pub record Spares (avatar_keys : List Text) (w w' : World) : Type 0 where
  pub files : w'.files ≡ w.files
  pub objects : w'.objects ≡ w.objects
  pub bytes : (k : Text) → IsUsed w avatar_keys k → disk_get k w'.disk ≡ disk_get k w.disk

spared : (avatar_keys : List Text) (w : World) → Spares avatar_keys w w
spared avatar_keys w = record { files = refl; objects = refl; bytes = λ k h. refl }

Spares-trans :
    (avatar_keys : List Text) {u v w : World}
    → Spares avatar_keys u v
    → Spares avatar_keys v w
    → Spares avatar_keys u w
Spares-trans avatar_keys {u} {v} {w} r s = record {
  files = s.files ∙ r.files;
  objects = s.objects ∙ r.objects;
  bytes = λ k h.
      s.bytes k (
        subst
          (λ files.
            (0 < count k (refs_of files)) ⊎ (any (λ key. bytes_eq key k) avatar_keys ≡ true))
          (sym r.files) h)
      ∙ r.bytes k h;
}

positive : (n : ℕ) → is_held (as_refcount (suc n)) ≡ true
positive n = ground arith

-- A table that counts holds what is referred to, and has no row for anything else.
held-or-absent :
    (n : ℕ) (o : Option ℤ) → o ≡ as_refcount n → is_held o ≡ false → (o ≡ none) × (n ≡ 0)
held-or-absent zero o e h = (e, refl)
held-or-absent (suc n) o e h = let held : is_held o ≡ true = ap is_held e ∙ positive n in cc

or_false : (a b : Bool) → (a || b) ≡ false → (a ≡ false) × (b ≡ false)
or_false false false h = (refl, refl)
or_false false true h = cc
or_false true b h = cc

module _ (erase : Erase) (avatar_keys : List Text) (inv : Inventory) where
  abbrev world_after : Outcome ℕ → World
  world_after o = o.1

  -- A key that nothing in use has.
  abbrev IsFree : World → Text → Type 0
  IsFree w key = (k : Text) → IsUsed w avatar_keys k → bytes_eq key k ≡ false

  erased-Spares :
      (key : Text) (w : World) (n : ℕ) (o : Option Text)
      → IsFree w key
      → Spares avatar_keys w (dropped erase avatar_keys inv key none n (erased erase key w o)).1
  erased-Spares key w n none free = record {
    files = refl;
    objects = refl;
    bytes = λ k h. disk_get-delete key k w.disk ∙ if_false _ _ (free k h);
  }
  erased-Spares key w n (some message) free = spared avatar_keys w

  delete_bytes-Spares :
      (key : Text) (w : World) (n : ℕ)
      → IsFree w key
      → Spares avatar_keys w (dropped erase avatar_keys inv key none n (delete_bytes erase key w)).1
  unfolding delete_bytes
  delete_bytes-Spares key w n free = elim (Bool-cases (is_safe_key key)) [
    | inl safe ↦
        subst (λ o. Spares avatar_keys w (dropped erase avatar_keys inv key none n o).1)
          (sym (if_true _ _ safe)) (erased-Spares key w n (erase key) free)
    | inr bad ↦
        subst (λ o. Spares avatar_keys w (dropped erase avatar_keys inv key none n o).1)
          (sym (if_false _ _ bad)) (spared avatar_keys w)
  ]

  erase_stored-Spares :
      (key : Text) (w : World) (o : Option ℕ)
      → IsFree w key
      → Spares avatar_keys w (erase_stored erase avatar_keys inv key none w o).1
  erase_stored-Spares key w none free = spared avatar_keys w
  erase_stored-Spares key w (some n) free = delete_bytes-Spares key w n free

  IsFree-key :
      (key : Text) (w : World)
      → count key (refs_of w.files) ≡ 0
      → any (λ k. bytes_eq k key) avatar_keys ≡ false
      → IsFree w key
  IsFree-key key w unused absent k h = elim (Bool-cases (bytes_eq key k)) [
    | inr other ↦ other
    | inl same ↦
        (let at = bytes_eq_sound key k same in
          elim h [
            | inl used ↦
                (let e : count k (refs_of w.files) ≡ 0 =
                    subst (λ t. count t (refs_of w.files) ≡ 0) at unused in
                  absurd (omega arith))
            | inr shown ↦
                (let e : any (λ key'. bytes_eq key' k) avatar_keys ≡ false =
                    subst (λ t. any (λ key'. bytes_eq key' t) avatar_keys ≡ false) at absent in
                  cc)
          ])
  ]

  reclaim_one-Spares :
      (key : Text) (w : World)
      → Counts w.objects (refs_of w.files)
      → Spares avatar_keys w (reclaim_one erase avatar_keys inv key w).1
  unfolding reclaim_one Counts
  reclaim_one-Spares key w (unique, counts) =
      let found = refcount_of key w.objects in
      elim (Bool-cases (is_referenced w avatar_keys key || is_held found)) [
        | inl kept ↦
            subst (λ o. Spares avatar_keys w (world_after o)) (sym (if_true _ _ kept))
              (spared avatar_keys w)
        | inr unkept ↦
            (let (unnamed, unheld) =
                or_false (is_referenced w avatar_keys key) (is_held found) unkept in
              let (no_file, no_avatar) =
                or_false (any (λ row. bytes_eq row.storage_key key) w.files) _ unnamed in
              let (absent, unused) =
                held-or-absent (count key (refs_of w.files)) found (counts key) unheld in
              subst (λ o. Spares avatar_keys w (world_after o)) (sym (if_false _ _ unkept))
                (subst
                  (λ o.
                    Spares avatar_keys w
                      (erase_stored erase avatar_keys inv key o w (stored_bytes key inv)).1)
                  (sym absent)
                  (erase_stored-Spares key w (stored_bytes key inv)
                    (IsFree-key key w unused no_avatar))))
      ]

  continued :
      (orphans : List Orphan) (n : ℕ) (w : World)
      → Counts w.objects (refs_of w.files)
      → ((m : ℕ) (v : World)
          → Counts v.objects (refs_of v.files)
          → Spares avatar_keys v (reclaim erase avatar_keys inv orphans m v).1)
      → (o : Outcome ℕ) → Spares avatar_keys w o.1
      → Spares avatar_keys w
          (resume o (λ freed v. reclaim erase avatar_keys inv orphans (add_u64 n freed) v)).1
  continued orphans n w counts rest (err fault, w1) s = s
  continued orphans n w counts rest (ok freed, w1) s = Spares-trans avatar_keys s (
      rest (add_u64 n freed) w1 (
        subst (λ objects. Counts objects (refs_of w1.files)) (sym s.objects)
          (subst (λ files. Counts w.objects (refs_of files)) (sym s.files) counts)))

  -- If the table of objects counts exactly the references of the rows of files, then `reclaim`,
  -- of any orphans and sizes, however old, and whether or not it ends in an error, changes
  -- neither table, and keeps the bytes of every key that a file, its thumbnail or an avatar has.
  pub reclaim-Spares :
      (orphans : List Orphan) (n : ℕ) (w : World)
      → Counts w.objects (refs_of w.files)
      → Spares avatar_keys w (reclaim erase avatar_keys inv orphans n w).1
  unfolding reclaim
  reclaim-Spares [] n w counts = spared avatar_keys w
  reclaim-Spares (orphan ∷ orphans) n w counts = elim (Bool-cases (is_missing orphan.reason)) [
    | inl missing ↦
        subst (λ o. Spares avatar_keys w (world_after o)) (sym (if_true _ _ missing))
          (reclaim-Spares orphans n w counts)
    | inr stored ↦
        subst (λ o. Spares avatar_keys w (world_after o)) (sym (if_false _ _ stored))
          (continued orphans n w counts (λ m w1 c. reclaim-Spares orphans m w1 c)
            (reclaim_one erase avatar_keys inv orphan.key w)
            (reclaim_one-Spares orphan.key w counts))
  ]
