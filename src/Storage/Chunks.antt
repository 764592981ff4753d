-- ===== src/Storage/Chunks.antt =====
-- Plaintexts cut into chunks, and the objects that the sealed chunks make up.
use uwuubox.Prelude.{ℕ, ◌+◌, ◌≤◌, ◌<◌, ◌≡◌, List, [], ◌∷◌, ◌++◌, arith, Bytes, length}

abbrev pub concat : List Bytes → Bytes
concat [] = []
concat (c ∷ cs) = c ++ concat cs

-- The pieces of the chunks, each wrapped with its index.
abbrev pub wrap_all : (ℕ → Bytes → Bytes) → ℕ → List Bytes → List Bytes
wrap_all wrap index [] = []
wrap_all wrap index (c ∷ cs) = wrap index c ∷ wrap_all wrap (index + 1) cs

-- Every chunk but the last is full, and none is empty.
abbrev pub IsChunked : ℕ → List Bytes → Type 0
IsChunked size [] = Unit
IsChunked size (c ∷ []) = (0 < length c) × (length c ≤ size)
IsChunked size (c ∷ d ∷ cs) = (length c ≡ size) × IsChunked size (d ∷ cs)

pub IsChunked-head :
    (size : ℕ) (c : Bytes) (cs : List Bytes)
    → 0 < size
    → IsChunked size (c ∷ cs)
    → (0 < length c) × (length c ≤ size)
IsChunked-head size c [] p h = h
IsChunked-head size c (d ∷ cs) p h = (omega arith, omega arith)

pub IsChunked-tail :
    (size : ℕ) (c : Bytes) (cs : List Bytes) → IsChunked size (c ∷ cs) → IsChunked size cs
IsChunked-tail size c [] h = tt
IsChunked-tail size c (d ∷ cs) h = h.1

-- A full chunk in front of chunks.
pub IsChunked-cons :
    (size : ℕ) (c : Bytes) (cs : List Bytes)
    → 0 < size
    → length c ≡ size
    → IsChunked size cs
    → IsChunked size (c ∷ cs)
IsChunked-cons size c [] p e h = omega arith
IsChunked-cons size c (d ∷ cs) p e h = (e, h)

pub IsChunked-le :
    (size : ℕ) (c : Bytes) (cs : List Bytes) → IsChunked size (c ∷ cs) → length c ≤ size
IsChunked-le size c [] h = h.1
IsChunked-le size c (d ∷ cs) h = omega arith
