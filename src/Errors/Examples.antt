-- ===== src/Errors/Examples.antt =====
-- The errors at concrete messages.
use uwuubox.Prelude.{codes, ◌≡◌, refl, All, false}
use uwuubox.Errors.{esc}
use uwuubox.Errors.Escaping.{esc-Reads, Reads, is_markup}

test_esc : esc (codes "<a&b>") ≡ codes "&lt;a&amp;b&gt;"
unfolding esc
test_esc = refl

esc-Reads_example :
    All (λ c. is_markup c ≡ false) (esc (codes "<b>")) × Reads (esc (codes "<b>")) (codes "<b>")
esc-Reads_example = esc-Reads (codes "<b>")
