-- ===== src/Mime/Examples.antt =====
-- The theorems on the names of downloads, at short names and at one of 130 bytes.
use uwuubox.Prelude.{replicate, ◌≡◌, ◌++◌, arith, refl, ◌∷◌}
use uwuubox.Text.{Text}
use uwuubox.Mime.{sanitize_filename, codes, some, none, []}
use uwuubox.Mime.Filenames.{IsSafe, sanitize_filename-IsSafe}
use uwuubox.Mime.Truncation.{sanitize_filename-ascii, sanitize_filename-panics}

sanitized : sanitize_filename (codes "/tmp/..a\"b") ≡ some (codes "a_b")
unfolding sanitize_filename
sanitized = refl

sanitize_filename-IsSafe_example : IsSafe (codes "a_b")
sanitize_filename-IsSafe_example =
    sanitize_filename-IsSafe (codes "/tmp/..a\"b") (codes "a_b") sanitized

sanitize_filename-ascii_example : (safe : Text) × (sanitize_filename (codes "a;b") ≡ some safe)
sanitize_filename-ascii_example =
    sanitize_filename-ascii (codes "a;b") (omega arith, (omega arith, (omega arith, tt)))

-- 127 letters, a letter of two bytes, and one more.
abbrev long_name : Text
long_name = replicate 127 b'a' ++ 0xe9 ∷ b'b' ∷ []

sanitize_filename-panics_example : sanitize_filename long_name ≡ none
unfolding sanitize_filename
sanitize_filename-panics_example =
    sanitize_filename-panics long_name (replicate 127 b'a') (b'b' ∷ []) 0xe9 refl (omega arith)
      (omega arith)
