-- ===== src/Files/Releasing.antt =====
-- Proofs about src/routes/files.rs: a reference given back frees exactly the bytes that no one needs.
use uwuubox.Prelude.{
  ℕ, suc, ◌<◌, ◌≤◌, ◌≡◌, ◌∙◌, ap, sym, refl, subst, Bool, Bool-cases, inl, inr, if_true, if_false,
  true, false, List, Bytes, [], ◌∷◌, arith, Option, none, some, ok, bytes_eq, bytes_eq_refl,
  bytes_eq_sound, if◌then◌else◌, ltb, ◌==◌, ◌&&◌,
}
use uwuubox.Text.{Text}
use uwuubox.Storage.{is_safe_key}
use uwuubox.Objects.{ObjectRow, release_object}
use uwuubox.Objects.References.{Counts, count}
use uwuubox.Objects.Refcounts.{release_object-Counts}
use uwuubox.Files.Rows.{
  FileRow, World, Disk, Erase, release, delete_bytes, disk_get, disk_delete, with_objects,
  with_disk, after_release, then_thumb, removed_true, release_thumb, erased,
}
use uwuubox.Files.References.{row_refs, with_thumb, held}

-- A key loses its last reference.
abbrev pub freed : ℕ → ℕ → Bool
freed before after = ltb 0 before && (after == 0)

abbrev unless : Bool → Option Bytes → Option Bytes
unless gone bytes = if gone then none else bytes

-- From the references `refs` to `refs'`: the table counts the new ones, and exactly the bytes of the
-- keys that lost their last reference are gone.
pub record Released (refs refs' : List Text) (w w' : World) : Type 0 where
  pub same_files : w'.files ≡ w.files
  pub counted : Counts w'.objects refs'
  pub bytes :
      (k : Text)
      → disk_get k w'.disk
        ≡ (if freed (count k refs) (count k refs') then none else disk_get k w.disk)

distinct : (a b k : Text) → bytes_eq a k ≡ true → bytes_eq a b ≡ false → bytes_eq b k ≡ false
distinct a b k at apart = elim (Bool-cases (bytes_eq b k)) [
  | inl same ↦
      (let e : bytes_eq a b ≡ true =
          subst (λ t. bytes_eq a t ≡ true) (sym (bytes_eq_sound b k same)) at in
        cc)
  | inr other ↦ other
]

pub disk_get-delete :
    (key k : Text) (disk : Disk)
    → disk_get k (disk_delete key disk) ≡ unless (bytes_eq key k) (disk_get k disk)
unfolding disk_get disk_delete
disk_get-delete key k [] = elim (Bool-cases (bytes_eq key k)) [
  | inl same ↦ sym (if_true _ _ same)
  | inr other ↦ sym (if_false _ _ other)
]
disk_get-delete key k ((key', b) ∷ disk) =
    let ih = disk_get-delete key k disk in
    elim (Bool-cases (bytes_eq key' key)) [
      | inl here ↦ ap (disk_get k) (if_true _ _ here) ∙ ih ∙ (elim (Bool-cases (bytes_eq key k)) [
        | inl same ↦ if_true _ _ same ∙ sym (if_true _ _ same)
        | inr other ↦
            (let miss : bytes_eq key' k ≡ false =
                subst (λ t. bytes_eq t k ≡ false) (sym (bytes_eq_sound key' key here)) other in
              ap (unless (bytes_eq key k)) (sym (if_false _ _ miss)))
      ])
      | inr apart ↦ ap (disk_get k) (if_false _ _ apart) ∙ (elim (Bool-cases (bytes_eq key' k)) [
        | inl at ↦
            (let miss : bytes_eq key k ≡ false = distinct key' key k at apart in
              if_true _ _ at ∙ sym (if_false _ _ miss ∙ if_true _ _ at))
        | inr other ↦
            if_false _ _ other ∙ ih ∙ ap (unless (bytes_eq key k)) (sym (if_false _ _ other))
      ])
    ]

-- One reference fewer.
freed-key : (same : Bool) (n : ℕ) → freed (if same then suc n else n) n ≡ (same && (n == 0))
freed-key true n = ground arith
freed-key false n = ground arith

freed-cons :
    (key k : Text) (refs : List Text)
    → freed (count k (key ∷ refs)) (count k refs) ≡ (bytes_eq key k && (count k refs == 0))
unfolding count
freed-cons key k refs = freed-key (bytes_eq key k) (count k refs)

freed_twice :
    (a b c : ℕ) (o : Option Bytes)
    → b ≤ a
    → c ≤ b
    → unless (freed b c) (unless (freed a b) o) ≡ unless (freed a c) o
freed_twice a b c o p q = ground arith

Released-trans :
    {a b c : List Text} {u v w : World}
    → ((k : Text) → count k b ≤ count k a)
    → ((k : Text) → count k c ≤ count k b)
    → Released a b u v
    → Released b c v w
    → Released a c u w
Released-trans {a} {b} {c} {u} {v} {w} p q r s = record {
  same_files = s.same_files ∙ r.same_files;
  counted = s.counted;
  bytes = λ k.
      s.bytes k
      ∙ ap (unless (freed (count k b) (count k c))) (r.bytes k)
      ∙ freed_twice (count k a) (count k b) (count k c) (disk_get k u.disk) (p k) (q k);
}

count-tail : (k r : Text) (refs : List Text) → count k refs ≤ count k (r ∷ refs)
unfolding count
count-tail k r refs = ground arith

count_self : (k : Text) (refs : List Text) → 0 < count k (k ∷ refs)
unfolding count
count_self k refs =
    let e = if_true (suc (count k refs)) (count k refs) (bytes_eq_refl k) in omega arith

pub freed_same : (n : ℕ) → freed n n ≡ false
freed_same n = ground arith

thumb_fewer :
    (k : Text) (o : Option Text) (refs : List Text) → count k refs ≤ count k (with_thumb o refs)
thumb_fewer k none refs = omega arith
thumb_fewer k (some key) refs = count-tail k key refs

under : {a b c : ℕ} → a ≤ b → b < c → a < c
under p q = omega arith

over : {a b : ℕ} → 0 < a → a ≤ b → 0 < b
over p q = omega arith

module _ (erase : Erase) (works : (key : Text) → erase key ≡ none) where
  delete_bytes-works :
      (key : Text) (w : World)
      → is_safe_key key ≡ true
      → delete_bytes erase key w ≡ (ok tt, with_disk w (disk_delete key w.disk))
  unfolding delete_bytes
  delete_bytes-works key w safe = if_true _ _ safe ∙ ap (erased erase key w) (works key)

  release-last :
      (key : Text) (w : World) (objects : List ObjectRow)
      → is_safe_key key ≡ true
      → (last : Bool) → release_object w.objects key ≡ some (last, objects)
      → release erase key w ≡ (
        ok tt,
        with_disk (with_objects w objects) (if last then disk_delete key w.disk else w.disk),
      )
  unfolding release
  release-last key w objects safe true e =
      ap (after_release erase key w) e ∙ delete_bytes-works key (with_objects w objects) safe
  release-last key w objects safe false e = ap (after_release erase key w) e

  disk_get-last :
      (key k : Text) (disk : Disk) (refs : List Text)
      → disk_get k (if count key refs == 0 then disk_delete key disk else disk)
        ≡ unless (freed (count k (key ∷ refs)) (count k refs)) (disk_get k disk)
  disk_get-last key k disk refs =
      let cases = freed-cons key k refs in
      elim (Bool-cases (count key refs == 0)) [
        | inl last ↦
            ap (disk_get k) (if_true _ _ last)
            ∙ disk_get-delete key k disk
            ∙ ap (λ b. unless b (disk_get k disk)) (sym (cases ∙ at_zero last))
        | inr more ↦ ap (disk_get k) (if_false _ _ more) ∙ sym (if_false _ _ (cases ∙ at_more more))
      ]
    where
      at_zero :
          (count key refs == 0) ≡ true → (bytes_eq key k && (count k refs == 0)) ≡ bytes_eq key k
      at_zero last = elim (Bool-cases (bytes_eq key k)) [
        | inl same ↦
            (let e : (count k refs == 0) ≡ true =
                subst (λ t. (count t refs == 0) ≡ true) (bytes_eq_sound key k same) last in
              rw (same, e) refl)
        | inr other ↦ rw other refl
      ]

      at_more : (count key refs == 0) ≡ false → (bytes_eq key k && (count k refs == 0)) ≡ false
      at_more more = elim (Bool-cases (bytes_eq key k)) [
        | inl same ↦
            (let e : (count k refs == 0) ≡ false =
                subst (λ t. (count t refs == 0) ≡ false) (bytes_eq_sound key k same) more in
              rw (same, e) refl)
        | inr other ↦ rw other refl
      ]

  -- One reference given back.
  pub release-Released :
      (key : Text) (refs : List Text) (w : World)
      → Counts w.objects (key ∷ refs)
      → count key refs < 2_147_483_648
      → is_safe_key key ≡ true
      → (w' : World) × (release erase key w ≡ (ok tt, w')) × Released (key ∷ refs) refs w w'
  release-Released key refs w counts small safe =
      let (objects, e, counted) = release_object-Counts w.objects refs key counts small in
      (
        _,
        release-last key w objects safe (count key refs == 0) e,
        record {
          same_files = refl;
          counted = counted;
          bytes = λ k. disk_get-last key k w.disk refs;
        },
      )

  thumb-Released :
      (o : Option Text) (refs : List Text) (w : World)
      → Counts w.objects (with_thumb o refs)
      → ((k : Text) → count k (with_thumb o refs) < 2_147_483_648)
      → ((k : Text) → 0 < count k (with_thumb o []) → is_safe_key k ≡ true)
      → (w' : World) × (release_thumb erase o w ≡ (ok tt, w'))
        × Released (with_thumb o refs) refs w w'
  thumb-Released none refs w counts small safe = (
    w,
    refl,
    record {
      same_files = refl;
      counted = counts;
      bytes = λ k. sym (if_false _ _ (freed_same (count k refs)));
    },
  )
  thumb-Released (some key) refs w counts small safe =
      let before = count-tail key key refs in
      let bound = small key in
      release-Released key refs w counts (omega arith) (safe key (count_self key []))

  -- The references of one row given back.
  pub row-Released :
      (row : FileRow) (refs : List Text) (w : World)
      → Counts w.objects (row_refs row refs)
      → ((k : Text) → count k (row_refs row refs) < 2_147_483_648)
      → ((k : Text) → 0 < held k row → is_safe_key k ≡ true)
      → (w' : World) × (then_thumb erase row.thumb_key (release erase row.storage_key w)
          ≡ (ok true, w'))
        × Released (row_refs row refs) refs w w'
  row-Released row refs w counts small safe =
      let key = row.storage_key in
      let o = row.thumb_key in
      let rest = with_thumb o refs in
      let tail : (k : Text) → count k rest ≤ count k (key ∷ rest) = λ k. count-tail k key rest in
      let bound = small key in
      let (w1, e1, r1) =
        release-Released key rest w counts (under (tail key) bound)
          (safe key (count_self key (with_thumb o []))) in
      let (w2, e2, r2) =
        thumb-Released o refs w1 r1.counted (λ k. under (tail k) (small k))
          (λ k h. safe k (over h (count-tail k key (with_thumb o [])))) in
      (
        w2,
        ap (then_thumb erase o) e1 ∙ ap (removed_true erase) e2,
        Released-trans tail (λ k. thumb_fewer k o refs) r1 r2,
      )
