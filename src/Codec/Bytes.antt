-- ===== src/Codec/Bytes.antt =====
-- Sequences of bytes, and machine words read from them and stored, lowest byte first.
use jetsocket.Prelude.{ℕ, ◌+◌, ◌*◌, ◌/◌, ◌%◌, ◌^◌, ◌<◌, List, [], ◌∷◌, ◌++◌}

abbrev pub IsBytes : List ℕ → Type 0
IsBytes [] = Unit {0}
IsBytes (x ∷ xs) = (x < 256) × IsBytes xs

pub IsBytes-append : (xs ys : List ℕ) → IsBytes xs → IsBytes ys → IsBytes (xs ++ ys)
IsBytes-append [] ys h k = k
IsBytes-append (x ∷ xs) ys h k = (h.0, IsBytes-append xs ys h.1 k)

-- uint32_t and uint64_t in memory.
abbrev pub load32 : ℕ → ℕ → ℕ → ℕ → ℕ
load32 a b c d = a + 256 * (b + 256 * (c + 256 * d))

abbrev pub store32 : ℕ → List ℕ
store32 w = w % 256 ∷ w / 2 ^ 8 % 256 ∷ w / 2 ^ 16 % 256 ∷ w / 2 ^ 24 % 256 ∷ []

abbrev pub load64 : ℕ → ℕ → ℕ
load64 low high = low + 2 ^ 32 * high

abbrev pub store64 : ℕ → List ℕ
store64 w = store32 (w % 2 ^ 32) ++ store32 (w / 2 ^ 32)
