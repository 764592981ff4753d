-- ===== src/Files/Fixtures.antt =====
-- A sealed file of five bytes, alone in its tables, that may burn or have a password.
use uwuubox.Prelude.{
  ◌<◌, ◌≡◌, refl, subst, Bool, Bool-cases, inl, inr, true, [], ◌∷◌, Option, none, some, codes,
  arith, bytes_eq, bytes_eq_sound,
}
use uwuubox.Prelude.Int.{pos}
use uwuubox.Text.{Text}
use uwuubox.Objects.{ObjectRow, fresh_row, acquire_object}
use uwuubox.Objects.References.{Counts, count, refcount_of, IsUnique}
use uwuubox.Objects.Refcounts.{acquire_object-Counts}
use uwuubox.Storage.{is_safe_key}
use uwuubox.Storage.Fixtures.{name, object, safe_name}
use uwuubox.Files.Rows.{FileRow, World, Erase}
use uwuubox.Files.References.{refs_of}

abbrev pub file_row : Bool → Option Text → FileRow
file_row burns password = record {
  id_core = codes "abcdefgh";
  ext = codes ".bin";
  owner_id = none;
  original_name = codes "a.bin";
  size_bytes = pos 5;
  mime_stored = codes "image/png";
  sha256 = 1 ∷ 2 ∷ [];
  storage_key = name;
  visibility = codes "unlisted";
  burn_after_read = burns;
  access_password_hash = password;
  scan_status = codes "clean";
  expires_at = some 100;
  thumb_key = none;
  delete_token_hash = none;
  created_at = 0;
}

abbrev pub object_row : ObjectRow
object_row = fresh_row (1 ∷ 2 ∷ []) name (pos 5) (codes "image/png")

abbrev pub world : Bool → Option Text → World
world burns password = record {
  files = file_row burns password ∷ [];
  objects = object_row ∷ [];
  disk = (name, object) ∷ [];
}

abbrev pub erase : Erase
erase key = none

pub empty-Counts : Counts [] []
unfolding Counts IsUnique refcount_of count
empty-Counts = (tt, λ k. refl)

pub world-Counts :
    (burns : Bool) (password : Option Text)
    → Counts (object_row ∷ []) (refs_of ((world burns password).files))
unfolding acquire_object refs_of
world-Counts burns password =
    acquire_object-Counts [] [] (1 ∷ 2 ∷ []) name (pos 5) (codes "image/png") name true
      (object_row ∷ []) empty-Counts refl

pub few_refs : (k : Text) → count k (name ∷ []) < 2_147_483_648
unfolding count
few_refs k = ground arith

pub safe_refs : (k : Text) → 0 < count k (name ∷ []) → is_safe_key k ≡ true
unfolding count
safe_refs k h = elim (Bool-cases (bytes_eq name k)) [
  | inl same ↦ subst (λ t. is_safe_key t ≡ true) (bytes_eq_sound name k same) safe_name
  | inr other ↦ absurd (ground arith)
]
