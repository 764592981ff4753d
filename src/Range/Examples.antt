-- ===== src/Range/Examples.antt =====
-- The theorems on ranges, at objects of a few bytes, and tests of `parse`.
use uwuubox.Text.{parse_u64}
use uwuubox.Prelude.{some, ◌≡◌, codes, min, refl, arith, ◌-◌}
use uwuubox.Range.{parse, satisfiable, unsatisfiable, invalid}
use uwuubox.Range.Bounds.{InObject, parse-InObject}
use uwuubox.Range.Requests.{closed_header, suffix_header, parse-closed_header, parse-suffix_header}

test_open : parse (some (codes "bytes=2-")) 5 ≡ satisfiable 2 4
unfolding parse parse_u64
test_open = refl

test_beyond : parse (some (codes "bytes=5-")) 5 ≡ unsatisfiable
unfolding parse parse_u64
test_beyond = refl

test_two : parse (some (codes "bytes=0-1,3-4")) 5 ≡ invalid
unfolding parse
test_two = refl

parse-InObject_example : InObject 5 (parse (some (codes "bytes=1-9")) 5)
parse-InObject_example = parse-InObject (some (codes "bytes=1-9")) 5

parse-closed_header_example : parse (some (closed_header 1 9)) 5 ≡ satisfiable 1 (min 9 4)
parse-closed_header_example =
    parse-closed_header 1 9 5 (omega arith) (omega arith) (omega arith) (omega arith)

test_suffix : parse (some (suffix_header 3)) 5 ≡ satisfiable (5 - 3) 4
test_suffix = parse-suffix_header 3 5 (omega arith) (omega arith) (omega arith)
