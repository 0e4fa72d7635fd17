-- ===== src/Codec/Words.antt =====
-- Masking word by word is masking byte by byte, as RFC 6455 section 5.3 defines it, and masking
-- twice with one key gives the data back.
use Prim.Native.Nat.{bit_or, bit_xor}
use jetsocket.Prelude.{
  ℕ, zero, suc, ◌+◌, ◌*◌, ◌/◌, ◌%◌, ◌^◌, ◌<◌, ◌≡◌, refl, sym, ap, ap₂, ◌∙◌, arith, List, [], ◌∷◌,
  ◌++◌, length, get_or,
}
use jetsocket.Codec.Bits.{shift, bit_xor_bound, bit_xor_split, bit_xor_twice, bit_or_low}
use jetsocket.Codec.Bytes.{IsBytes, load32, store32, load64, store64}
use jetsocket.Codec.Mask.{
  Key, IsKey, key_bytes, key_at, mask32, mask64, mask_rest, mask_words32, mask_words64,
  apply_mask_c, apply_mask,
}

xor-byte : (a b : ℕ) → a < 256 → b < 256 → bit_xor a b < 256
xor-byte a b p q = bit_xor_bound 8 a b p q

xor-cons :
    (x y v w : ℕ)
    → x < 256
    → v < 256
    → bit_xor (x + 256 * y) (v + 256 * w) ≡ bit_xor x v + 256 * bit_xor y w
xor-cons x y v w p q =
    omega (arith, bit_xor_split 8 x y v w p q, ap₂ bit_xor (shift_byte x y) (shift_byte v w))
  where
    shift_byte : (x y : ℕ) → x + shift 8 y ≡ x + 256 * y
    shift_byte x y = omega arith

xor-load32 :
    {a b c d p q r s : ℕ}
    → IsBytes (a ∷ b ∷ c ∷ d ∷ [])
    → IsBytes (p ∷ q ∷ r ∷ s ∷ [])
    → bit_xor (load32 a b c d) (load32 p q r s)
      ≡ load32 (bit_xor a p) (bit_xor b q) (bit_xor c r) (bit_xor d s)
xor-load32 {a} {b} {c} {d} {p} {q} {r} {s} h k = omega (
  arith,
  xor-cons a (b + 256 * (c + 256 * d)) p (q + 256 * (r + 256 * s)) h.0 k.0,
  xor-cons b (c + 256 * d) q (r + 256 * s) h.1.0 k.1.0,
  xor-cons c d r s h.1.1.0 k.1.1.0,
)

store32-load32 :
    {a b c d : ℕ} → IsBytes (a ∷ b ∷ c ∷ d ∷ []) → store32 (load32 a b c d) ≡ a ∷ b ∷ c ∷ d ∷ []
store32-load32 {a} {b} {c} {d} h =
    let r : (load32 a b c d % 256 ≡ a) × (load32 a b c d / 2 ^ 8 % 256 ≡ b) =
      omega (arith, h.0, h.1.0) in
    let s : (load32 a b c d / 2 ^ 16 % 256 ≡ c) × (load32 a b c d / 2 ^ 24 % 256 ≡ d) =
      omega (arith, h.0, h.1.0, h.1.1.0, h.1.1.1.0) in
    ap₂ ◌∷◌ (r.0) (ap₂ ◌∷◌ (r.1) (ap₂ (λ (x y : ℕ). x ∷ y ∷ []) (s.0) (s.1)))

load32-bound : {a b c d : ℕ} → IsBytes (a ∷ b ∷ c ∷ d ∷ []) → load32 a b c d < 2 ^ 32
load32-bound h = omega (arith, h.0, h.1.0, h.1.1.0, h.1.1.1.0)

xor-load64 :
    (x y v w : ℕ)
    → x < 2 ^ 32
    → v < 2 ^ 32
    → bit_xor (load64 x y) (load64 v w) ≡ load64 (bit_xor x v) (bit_xor y w)
xor-load64 x y v w p q =
    omega (arith, bit_xor_split 32 x y v w p q, ap₂ bit_xor (shift_word x y) (shift_word v w))
  where
    shift_word : (x y : ℕ) → x + shift 32 y ≡ x + 2 ^ 32 * y
    shift_word x y = omega arith

store64-load64 : (x y : ℕ) → x < 2 ^ 32 → y < 2 ^ 32 → store64 (load64 x y) ≡ store32 x ++ store32 y
store64-load64 x y p q = ap₂ (λ (a b : ℕ). store32 a ++ store32 b) (omega arith) (omega arith)

key-IsBytes : (key : Key) → IsKey key → IsBytes (key_bytes key)
key-IsBytes key h = (h.0, (h.1.0, (h.1.1.0, (h.1.1.1, tt))))

mask64-load64 : (key : Key) → IsKey key → mask64 key ≡ load64 (mask32 key) (mask32 key)
mask64-load64 key h = omega (
  arith,
  load32-bound (key-IsBytes key h),
  bit_or_low 32 (mask32 key) (mask32 key) (load32-bound (key-IsBytes key h)),
  ap (bit_or (mask32 key)) (wraps (mask32 key) (load32-bound (key-IsBytes key h))),
)
  where
    wraps : (m : ℕ) → m < 2 ^ 32 → m * 2 ^ 32 % 2 ^ 64 ≡ shift 32 m
    wraps m h = omega arith

-- The four octets from an aligned index meet the key's four octets in order.
key_at-aligned :
    (key : Key) (i : ℕ)
    → i % 4 ≡ 0
    → (key_at key i ≡ key.k0)
      × ((key_at key (i + 1) ≡ key.k1)
          × ((key_at key (i + 1 + 1) ≡ key.k2) × (key_at key (i + 1 + 1 + 1) ≡ key.k3)))
key_at-aligned key i h = (
  at (i % 4) 0 h,
  (
    at ((i + 1) % 4) 1 (omega arith),
    (at ((i + 1 + 1) % 4) 2 (omega arith), at ((i + 1 + 1 + 1) % 4) 3 (omega arith)),
  ),
)
  where
    at : (m n : ℕ) → m ≡ n → get_or (key_bytes key) m 0 ≡ get_or (key_bytes key) n 0
    at m n e = ap (λ (n : ℕ). get_or (key_bytes key) n 0) e

eight : (i : ℕ) → i + 8 ≡ i + 4 + 4
eight i = omega arith

zero_add : (i : ℕ) → 0 + i ≡ i
zero_add i = omega arith

add_four : (i : ℕ) → i + 1 + 1 + 1 + 1 ≡ i + 4
add_four i = omega arith

store32-xor :
    (key : Key) {a b c d : ℕ}
    → IsKey key
    → IsBytes (a ∷ b ∷ c ∷ d ∷ [])
    → store32 (bit_xor (load32 a b c d) (mask32 key))
      ≡ bit_xor a key.k0 ∷ bit_xor b key.k1 ∷ bit_xor c key.k2 ∷ bit_xor d key.k3 ∷ []
store32-xor key {a} {b} {c} {d} k h =
    ap store32 (xor-load32 h (key-IsBytes key k))
    ∙ store32-load32 (
      xor-byte a key.k0 (h.0) (k.0),
      (
        xor-byte b key.k1 (h.1.0) (k.1.0),
        (xor-byte c key.k2 (h.1.1.0) (k.1.1.0), (xor-byte d key.k3 (h.1.1.1.0) (k.1.1.1), tt)),
      ),
    )

-- One step of four octets.
word32-octets :
    (key : Key) (i : ℕ) {a b c d : ℕ} (xs : List ℕ)
    → IsKey key
    → IsBytes (a ∷ b ∷ c ∷ d ∷ [])
    → i % 4 ≡ 0
    → store32 (bit_xor (load32 a b c d) (mask32 key)) ++ mask_rest key (i + 4) xs
      ≡ mask_rest key i (a ∷ b ∷ c ∷ d ∷ xs)
unfolding mask_rest
word32-octets key i {a} {b} {c} {d} xs k h e =
    let at = key_at-aligned key i e in
    ap (λ (r : List ℕ). r ++ mask_rest key (i + 4) xs) (store32-xor key k h)
    ∙ ap₂ ◌∷◌ (ap (bit_xor a) (sym (at.0))) (
        ap₂ ◌∷◌ (ap (bit_xor b) (sym (at.1.0))) (
          ap₂ ◌∷◌ (ap (bit_xor c) (sym (at.1.1.0))) (
            ap₂ ◌∷◌ (ap (bit_xor d) (sym (at.1.1.1)))
              (ap (λ (j : ℕ). mask_rest key j xs) (sym (add_four i))))))

mask_words32-octets :
    (key : Key) (i : ℕ) (xs : List ℕ)
    → IsKey key
    → IsBytes xs
    → i % 4 ≡ 0
    → mask_words32 key i xs ≡ mask_rest key i xs
unfolding mask_words32
mask_words32-octets key i [] k h e = refl
mask_words32-octets key i (a ∷ []) k h e = refl
mask_words32-octets key i (a ∷ b ∷ []) k h e = refl
mask_words32-octets key i (a ∷ b ∷ c ∷ []) k h e = refl
mask_words32-octets key i (a ∷ b ∷ c ∷ d ∷ xs) k h e =
    ap (λ (r : List ℕ). store32 (bit_xor (load32 a b c d) (mask32 key)) ++ r)
      (mask_words32-octets key (i + 4) xs k h.1.1.1.1 (omega arith))
    ∙ word32-octets key i xs k (h.0, (h.1.0, (h.1.1.0, (h.1.1.1.0, tt)))) e

-- One step of eight is two steps of four.
word64-words32 :
    (key : Key) {a b c d e f g h : ℕ}
    → IsKey key
    → IsBytes (a ∷ b ∷ c ∷ d ∷ [])
    → IsBytes (e ∷ f ∷ g ∷ h ∷ [])
    → store64 (bit_xor (load64 (load32 a b c d) (load32 e f g h)) (mask64 key))
      ≡ store32 (bit_xor (load32 a b c d) (mask32 key))
        ++ store32 (bit_xor (load32 e f g h) (mask32 key))
word64-words32 key {a} {b} {c} {d} {e} {f} {g} {h} k p q =
    let m = load32-bound (key-IsBytes key k) in
    ap store64 (
      ap (bit_xor (load64 (load32 a b c d) (load32 e f g h))) (mask64-load64 key k)
      ∙ xor-load64 (load32 a b c d) (load32 e f g h) (mask32 key) (mask32 key) (load32-bound p) m)
    ∙ store64-load64 (bit_xor (load32 a b c d) (mask32 key)) (bit_xor (load32 e f g h) (mask32 key))
        (bit_xor_bound 32 (load32 a b c d) (mask32 key) (load32-bound p) m)
        (bit_xor_bound 32 (load32 e f g h) (mask32 key) (load32-bound q) m)

mask_words64-octets :
    (key : Key) (i : ℕ) (xs : List ℕ)
    → IsKey key
    → IsBytes xs
    → i % 4 ≡ 0
    → mask_words64 key i xs ≡ mask_rest key i xs
unfolding mask_words64
mask_words64-octets key i [] k h e = mask_words32-octets key i [] k h e
mask_words64-octets key i (a ∷ []) k h e = mask_words32-octets key i (a ∷ []) k h e
mask_words64-octets key i (a ∷ b ∷ []) k h e = mask_words32-octets key i (a ∷ b ∷ []) k h e
mask_words64-octets key i (a ∷ b ∷ c ∷ []) k h e = mask_words32-octets key i (a ∷ b ∷ c ∷ []) k h e
mask_words64-octets key i (a ∷ b ∷ c ∷ d ∷ []) k h e =
    mask_words32-octets key i (a ∷ b ∷ c ∷ d ∷ []) k h e
mask_words64-octets key i (a ∷ b ∷ c ∷ d ∷ p ∷ []) k h e =
    mask_words32-octets key i (a ∷ b ∷ c ∷ d ∷ p ∷ []) k h e
mask_words64-octets key i (a ∷ b ∷ c ∷ d ∷ p ∷ q ∷ []) k h e =
    mask_words32-octets key i (a ∷ b ∷ c ∷ d ∷ p ∷ q ∷ []) k h e
mask_words64-octets key i (a ∷ b ∷ c ∷ d ∷ p ∷ q ∷ r ∷ []) k h e =
    mask_words32-octets key i (a ∷ b ∷ c ∷ d ∷ p ∷ q ∷ r ∷ []) k h e
mask_words64-octets key i (a ∷ b ∷ c ∷ d ∷ p ∷ q ∷ r ∷ s ∷ xs) k h e =
    let low : IsBytes (a ∷ b ∷ c ∷ d ∷ []) = (h.0, (h.1.0, (h.1.1.0, (h.1.1.1.0, tt)))) in
    let t : IsBytes (p ∷ q ∷ r ∷ s ∷ xs) = h.1.1.1.1 in
    let high : IsBytes (p ∷ q ∷ r ∷ s ∷ []) = (t.0, (t.1.0, (t.1.1.0, (t.1.1.1.0, tt)))) in
    ap₂ ◌++◌ (word64-words32 key k low high)
      (mask_words64-octets key (i + 8) xs k t.1.1.1.1 (omega arith))
    ∙ ap (λ (z : List ℕ). store32 (bit_xor (load32 a b c d) (mask32 key)) ++ z)
        (ap (λ (j : ℕ). store32 (bit_xor (load32 p q r s) (mask32 key)) ++ mask_rest key j xs)
            (eight i)
          ∙ word32-octets key (i + 4) xs k high (omega arith))
    ∙ word32-octets key i (p ∷ q ∷ r ∷ s ∷ xs) k low e

-- Octet j of the tail loop that starts at index i.
mask_rest-octet :
    (key : Key) (i : ℕ) (xs : List ℕ) (j : ℕ)
    → j < length xs
    → get_or (mask_rest key i xs) j 0 ≡ bit_xor (get_or xs j 0) (key_at key (i + j))
unfolding mask_rest
mask_rest-octet key i [] j h = absurd (omega arith)
mask_rest-octet key i (x ∷ xs) zero h = ap (λ (n : ℕ). bit_xor x (key_at key n)) (omega arith)
mask_rest-octet key i (x ∷ xs) (suc j) h =
    mask_rest-octet key (i + 1) xs j (omega arith)
    ∙ ap (λ (n : ℕ). bit_xor (get_or xs j 0) (key_at key n)) (omega arith)

length-mask_rest : (key : Key) (i : ℕ) (xs : List ℕ) → length (mask_rest key i xs) ≡ length xs
unfolding mask_rest
length-mask_rest key i [] = refl
length-mask_rest key i (x ∷ xs) = ap suc (length-mask_rest key (i + 1) xs)

pub apply_mask_c-octets :
    (xs : List ℕ) (key : Key) → IsBytes xs → IsKey key → apply_mask_c xs key ≡ mask_rest key 0 xs
unfolding apply_mask_c
apply_mask_c-octets xs key h k = mask_words64-octets key 0 xs k h refl

apply_mask-c : (xs : List ℕ) (key : Key) → apply_mask xs key ≡ apply_mask_c xs key
unfolding apply_mask apply_mask_c mask_words64 mask_words32 mask_rest
apply_mask-c [] key = refl
apply_mask-c (x ∷ xs) key = refl

-- On bytes and a key of four bytes, masking a word at a time keeps the length and turns each octet
-- into its exclusive or with the key's octet at that index modulo 4, as RFC 6455 defines masking.
pub apply_mask-octets :
    (xs : List ℕ) (key : Key) (j : ℕ)
    → IsBytes xs
    → IsKey key
    → j < length xs
    → (length (apply_mask xs key) ≡ length xs)
      × (get_or (apply_mask xs key) j 0
          ≡ bit_xor (get_or xs j 0) (get_or (key_bytes key) (j % 4) 0))
apply_mask-octets xs key j h k lt =
    let e : apply_mask xs key ≡ mask_rest key 0 xs =
      apply_mask-c xs key ∙ apply_mask_c-octets xs key h k in
    (
      ap length e ∙ length-mask_rest key 0 xs,
      ap (λ (r : List ℕ). get_or r j 0) e
          ∙ mask_rest-octet key 0 xs j lt
          ∙ ap (λ (n : ℕ). bit_xor (get_or xs j 0) (key_at key n)) (zero_add j),
    )

key_at-byte : (key : Key) (i : ℕ) → IsKey key → key_at key i < 256
key_at-byte key i k = at (i % 4)
  where
    at : (n : ℕ) → get_or (key_bytes key) n 0 < 256
    at zero = k.0
    at (suc zero) = k.1.0
    at (suc (suc zero)) = k.1.1.0
    at (suc (suc (suc zero))) = k.1.1.1
    at (suc (suc (suc (suc n)))) = omega arith

mask_rest-IsBytes :
    (key : Key) (i : ℕ) (xs : List ℕ) → IsKey key → IsBytes xs → IsBytes (mask_rest key i xs)
unfolding mask_rest
mask_rest-IsBytes key i [] k h = tt
mask_rest-IsBytes key i (x ∷ xs) k h =
    (xor-byte x (key_at key i) (h.0) (key_at-byte key i k), mask_rest-IsBytes key (i + 1) xs k h.1)

mask_rest_twice :
    (key : Key) (i : ℕ) (xs : List ℕ)
    → IsKey key
    → IsBytes xs
    → mask_rest key i (mask_rest key i xs) ≡ xs
unfolding mask_rest
mask_rest_twice key i [] k h = refl
mask_rest_twice key i (x ∷ xs) k h =
    ap₂ ◌∷◌ (bit_xor_twice 8 x (key_at key i) (h.0) (key_at-byte key i k))
      (mask_rest_twice key (i + 1) xs k h.1)

-- Masking twice with one key of four bytes gives the bytes back.
pub apply_mask_c_twice :
    (xs : List ℕ) (key : Key) → IsBytes xs → IsKey key → apply_mask_c (apply_mask_c xs key) key ≡ xs
apply_mask_c_twice xs key h k =
    let e = apply_mask_c-octets xs key h k in
    ap (λ (r : List ℕ). apply_mask_c r key) e
    ∙ apply_mask_c-octets (mask_rest key 0 xs) key (mask_rest-IsBytes key 0 xs k h) k
    ∙ mask_rest_twice key 0 xs k h

-- The length is kept whatever the octets are.
length-mask_words32 : (key : Key) (i : ℕ) (xs : List ℕ) → length (mask_words32 key i xs) ≡ length xs
unfolding mask_words32
length-mask_words32 key i [] = length-mask_rest key i []
length-mask_words32 key i (a ∷ []) = length-mask_rest key i (a ∷ [])
length-mask_words32 key i (a ∷ b ∷ []) = length-mask_rest key i (a ∷ b ∷ [])
length-mask_words32 key i (a ∷ b ∷ c ∷ []) = length-mask_rest key i (a ∷ b ∷ c ∷ [])
length-mask_words32 key i (a ∷ b ∷ c ∷ d ∷ xs) =
    ap (λ (n : ℕ). suc (suc (suc (suc n)))) (length-mask_words32 key (i + 4) xs)

length-mask_words64 : (key : Key) (i : ℕ) (xs : List ℕ) → length (mask_words64 key i xs) ≡ length xs
unfolding mask_words64
length-mask_words64 key i [] = length-mask_words32 key i []
length-mask_words64 key i (a ∷ []) = length-mask_words32 key i (a ∷ [])
length-mask_words64 key i (a ∷ b ∷ []) = length-mask_words32 key i (a ∷ b ∷ [])
length-mask_words64 key i (a ∷ b ∷ c ∷ []) = length-mask_words32 key i (a ∷ b ∷ c ∷ [])
length-mask_words64 key i (a ∷ b ∷ c ∷ d ∷ []) = length-mask_words32 key i (a ∷ b ∷ c ∷ d ∷ [])
length-mask_words64 key i (a ∷ b ∷ c ∷ d ∷ p ∷ []) =
    length-mask_words32 key i (a ∷ b ∷ c ∷ d ∷ p ∷ [])
length-mask_words64 key i (a ∷ b ∷ c ∷ d ∷ p ∷ q ∷ []) =
    length-mask_words32 key i (a ∷ b ∷ c ∷ d ∷ p ∷ q ∷ [])
length-mask_words64 key i (a ∷ b ∷ c ∷ d ∷ p ∷ q ∷ r ∷ []) =
    length-mask_words32 key i (a ∷ b ∷ c ∷ d ∷ p ∷ q ∷ r ∷ [])
length-mask_words64 key i (a ∷ b ∷ c ∷ d ∷ p ∷ q ∷ r ∷ s ∷ xs) =
    ap (λ (n : ℕ). suc (suc (suc (suc (suc (suc (suc (suc n))))))))
      (length-mask_words64 key (i + 8) xs)

pub length-apply_mask_c : (xs : List ℕ) (key : Key) → length (apply_mask_c xs key) ≡ length xs
unfolding apply_mask_c
length-apply_mask_c xs key = length-mask_words64 key 0 xs
