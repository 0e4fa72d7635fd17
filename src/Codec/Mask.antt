-- ===== src/Codec/Mask.antt =====
-- Masking, as `_apply_mask_c` and `apply_mask` of jetsocket/_core.pyx do it, a word at a time. The
-- list is the memory from the index `i` on.
use Prim.Native.Nat.{bit_or, bit_xor}
use jetsocket.Prelude.{ℕ, ◌+◌, ◌*◌, ◌%◌, ◌^◌, ◌<◌, List, [], ◌∷◌, ◌++◌, get_or}
use jetsocket.Codec.Bytes.{load32, store32, load64, store64}

-- unsigned char mask_key[4]
pub record Key : Type 0 where
  pub k0 : ℕ
  pub k1 : ℕ
  pub k2 : ℕ
  pub k3 : ℕ

abbrev pub IsKey : Key → Type 0
IsKey key = (key.k0 < 256) × ((key.k1 < 256) × ((key.k2 < 256) × (key.k3 < 256)))

abbrev pub key_bytes : Key → List ℕ
key_bytes key = key.k0 ∷ key.k1 ∷ key.k2 ∷ key.k3 ∷ []

abbrev pub key_at : Key → ℕ → ℕ
key_at key i = get_or (key_bytes key) (i % 4) 0

-- memcpy(&mask32, mask, 4), and the same word twice.
abbrev pub mask32 : Key → ℕ
mask32 key = load32 key.k0 key.k1 key.k2 key.k3

abbrev pub mask64 : Key → ℕ
mask64 key = bit_or (mask32 key) (mask32 key * 2 ^ 32 % 2 ^ 64)

-- while i < length
unfoldable pub mask_rest : Key → ℕ → List ℕ → List ℕ
mask_rest key i [] = []
mask_rest key i (x ∷ xs) = bit_xor x (key_at key i) ∷ mask_rest key (i + 1) xs

-- while i + 4 <= length
unfoldable pub mask_words32 : Key → ℕ → List ℕ → List ℕ
mask_words32 key i (a ∷ b ∷ c ∷ d ∷ xs) =
    store32 (bit_xor (load32 a b c d) (mask32 key)) ++ mask_words32 key (i + 4) xs
mask_words32 key i xs = mask_rest key i xs

-- while i + 8 <= length
unfoldable pub mask_words64 : Key → ℕ → List ℕ → List ℕ
mask_words64 key i (a ∷ b ∷ c ∷ d ∷ e ∷ f ∷ g ∷ h ∷ xs) =
    store64 (bit_xor (load64 (load32 a b c d) (load32 e f g h)) (mask64 key))
    ++ mask_words64 key (i + 8) xs
mask_words64 key i xs = mask_words32 key i xs

unfoldable pub apply_mask_c : List ℕ → Key → List ℕ
apply_mask_c payload key = mask_words64 key 0 payload

unfoldable pub apply_mask : List ℕ → Key → List ℕ
apply_mask [] key = []
apply_mask (x ∷ payload) key = apply_mask_c (x ∷ payload) key
