-- ===== src/Codec/Bits.antt =====
-- Laws of exclusive or on native numbers: one digit, and two words side by side.
use Prim.Native.Nat.{suc, digits, bit_or, bit_xor, bit_or-bitwise, bit_xor-bitwise, differ, max}
use jetsocket.Prelude.{
  ℕ, zero, ◌+◌, ◌*◌, ◌/◌, ◌%◌, ◌≤◌, ◌<◌, ◌≡◌, refl, sym, ap, ap₂, ◌∙◌, ◌-◌, arith,
}

-- What both operations are: read digit by digit, where the second number is left at the end of the
-- first. One digit more makes no difference once the first number is covered.
module _ (op : ℕ → ℕ → ℕ) where
  abbrev read_off : ℕ → ℕ → ℕ → ℕ
  read_off count x y = digits (λ rest. rest) op count x y

  one_more : (count x y : ℕ) → x ≤ count → read_off (suc count) x y ≡ read_off count x y
  one_more count zero y le = over count y
    where
      over : (count y : ℕ) → read_off (suc count) zero y ≡ read_off count zero y
      over zero y = refl
      over (suc count) y = refl
  one_more zero (suc x) y le = absurd (omega arith)
  one_more (suc count) (suc x) y le =
      ap (λ (high : ℕ). high * 2 + op (suc x % 2) (y % 2))
        (one_more count (suc x / 2) (y / 2) (omega arith))

  spare : (extra x y : ℕ) → read_off (extra + x) x y ≡ read_off x x y
  spare zero x y = ap (λ (count : ℕ). read_off count x y) (zero_add x)
    where
      zero_add : (x : ℕ) → 0 + x ≡ x
      zero_add x = omega arith
  spare (suc extra) x y =
      ap (λ (count : ℕ). read_off count x y) (suc_add extra x)
      ∙ one_more (extra + x) x y (omega arith)
      ∙ spare extra x y
    where
      suc_add : (m n : ℕ) → suc m + n ≡ suc (m + n)
      suc_add m n = omega arith

  -- The lowest digit, and those above it.
  pub lowest_digit :
      (x y : ℕ)
      → read_off (suc x) (suc x) y
        ≡ read_off (suc x / 2) (suc x / 2) (y / 2) * 2 + op (suc x % 2) (y % 2)
  lowest_digit x y =
      ap (λ (high : ℕ). high * 2 + op (suc x % 2) (y % 2))
        (ap (λ (count : ℕ). read_off count (suc x / 2) (y / 2)) (gap x)
          ∙ spare (x - suc x / 2) (suc x / 2) (y / 2))
    where
      gap : (x : ℕ) → x ≡ x - suc x / 2 + suc x / 2
      gap x = omega arith

-- `shift k y` is y times the k-th power of two.
abbrev pub shift : ℕ → ℕ → ℕ
shift zero y = y
shift (suc k) y = 2 * shift k y

pub zero-bit_xor : (b : ℕ) → bit_xor 0 b ≡ b
zero-bit_xor b = bit_xor-bitwise 0 b

zero-bit_or : (b : ℕ) → bit_or 0 b ≡ b
zero-bit_or b = bit_or-bitwise 0 b

pub bit_xor_step : (x y : ℕ) → bit_xor x y ≡ bit_xor (x / 2) (y / 2) * 2 + differ (x % 2) (y % 2)
bit_xor_step zero y =
    let low : bit_xor 0 y ≡ y = zero-bit_xor y in
    let high : bit_xor 0 (y / 2) ≡ y / 2 = zero-bit_xor (y / 2) in omega (arith, low, high)
bit_xor_step (suc x) y =
    bit_xor-bitwise (suc x) y
    ∙ lowest_digit differ x y
    ∙ ap (λ (high : ℕ). high * 2 + differ (suc x % 2) (y % 2))
        (sym (bit_xor-bitwise (suc x / 2) (y / 2)))

bit_or_step : (x y : ℕ) → bit_or x y ≡ bit_or (x / 2) (y / 2) * 2 + max (x % 2) (y % 2)
bit_or_step zero y =
    let low : bit_or 0 y ≡ y = zero-bit_or y in
    let high : bit_or 0 (y / 2) ≡ y / 2 = zero-bit_or (y / 2) in omega (arith, low, high)
bit_or_step (suc x) y =
    bit_or-bitwise (suc x) y
    ∙ lowest_digit max x y
    ∙ ap (λ (high : ℕ). high * 2 + max (suc x % 2) (y % 2))
        (sym (bit_or-bitwise (suc x / 2) (y / 2)))

zero_add : (y : ℕ) → 0 + y ≡ y
zero_add y = omega arith

even_half : (s : ℕ) → 2 * s / 2 ≡ s
even_half s = omega arith

even_odd : (s : ℕ) → 2 * s % 2 ≡ 0
even_odd s = omega arith

max_zero : (a : ℕ) → max a 0 ≡ a
max_zero a = omega arith

-- The halves of a shifted sum.
half_shift : (x s : ℕ) → (x + 2 * s) / 2 ≡ x / 2 + s
half_shift x s = omega arith

odd_shift : (x s : ℕ) → (x + 2 * s) % 2 ≡ x % 2
odd_shift x s = omega arith

differ_bound : (a b : ℕ) → a < 2 → b < 2 → differ a b < 2
differ_bound zero b p q = q
differ_bound (suc zero) zero p q = omega arith
differ_bound (suc zero) (suc zero) p q = omega arith
differ_bound (suc (suc a)) b p q = absurd (omega arith)
differ_bound (suc zero) (suc (suc b)) p q = absurd (omega arith)

pub bit_xor_bound : (k a b : ℕ) → a < shift k 1 → b < shift k 1 → bit_xor a b < shift k 1
bit_xor_bound zero zero zero p q = omega (arith, zero-bit_xor 0)
bit_xor_bound zero (suc a) b p q = absurd (omega arith)
bit_xor_bound zero zero (suc b) p q = absurd (omega arith)
bit_xor_bound (suc k) a b p q = omega (
  arith,
  bit_xor_step a b,
  bit_xor_bound k (a / 2) (b / 2) (omega arith) (omega arith),
  differ_bound (a % 2) (b % 2) (omega arith) (omega arith),
)

pub bit_xor_split :
    (k x y v w : ℕ)
    → x < shift k 1
    → v < shift k 1
    → bit_xor (x + shift k y) (v + shift k w) ≡ bit_xor x v + shift k (bit_xor y w)
bit_xor_split zero zero y zero w p q =
    omega (arith, zero-bit_xor 0, ap₂ bit_xor (zero_add y) (zero_add w))
bit_xor_split zero (suc x) y v w p q = absurd (omega arith)
bit_xor_split zero zero y (suc v) w p q = absurd (omega arith)
bit_xor_split (suc k) x y v w p q = omega (
  arith,
  bit_xor_step (x + shift (suc k) y) (v + shift (suc k) w),
  ap₂ bit_xor (half_shift x (shift k y)) (half_shift v (shift k w)),
  ap₂ differ (odd_shift x (shift k y)) (odd_shift v (shift k w)),
  bit_xor_split k (x / 2) y (v / 2) w (omega arith) (omega arith),
  bit_xor_step x v,
)

pub bit_or_low : (k x y : ℕ) → x < shift k 1 → bit_or x (shift k y) ≡ x + shift k y
bit_or_low zero zero y p = omega (arith, zero-bit_or y)
bit_or_low zero (suc x) y p = absurd (omega arith)
bit_or_low (suc k) x y p = omega (
  arith,
  bit_or_step x (shift (suc k) y),
  ap (bit_or (x / 2)) (even_half (shift k y)),
  ap (max (x % 2)) (even_odd (shift k y)),
  max_zero (x % 2),
  bit_or_low k (x / 2) y (omega arith),
)

differ_twice : (a b : ℕ) → a < 2 → b < 2 → differ (differ a b) b ≡ a
differ_twice zero zero p q = refl
differ_twice zero (suc zero) p q = refl
differ_twice (suc zero) zero p q = refl
differ_twice (suc zero) (suc zero) p q = refl
differ_twice (suc (suc a)) b p q = absurd (omega arith)
differ_twice zero (suc (suc b)) p q = absurd (omega arith)
differ_twice (suc zero) (suc (suc b)) p q = absurd (omega arith)

pub bit_xor_twice : (k a b : ℕ) → a < shift k 1 → b < shift k 1 → bit_xor (bit_xor a b) b ≡ a
bit_xor_twice zero zero zero p q = refl
bit_xor_twice zero (suc a) b p q = absurd (omega arith)
bit_xor_twice zero zero (suc b) p q = absurd (omega arith)
bit_xor_twice (suc k) a b p q =
    let d = differ_bound (a % 2) (b % 2) (omega arith) (omega arith) in
    let s = bit_xor_step a b in
    omega (
      arith,
      bit_xor_step (bit_xor a b) b,
      ap (λ (n : ℕ). bit_xor n (b / 2)) (digit_half (bit_xor a b) _ _ d s),
      ap (λ (n : ℕ). differ n (b % 2)) (digit_odd (bit_xor a b) _ _ d s),
      differ_twice (a % 2) (b % 2) (omega arith) (omega arith),
      bit_xor_twice k (a / 2) (b / 2) (omega arith) (omega arith),
    )
  where
    digit_half : (n x d : ℕ) → d < 2 → n ≡ x * 2 + d → n / 2 ≡ x
    digit_half n x d p e = omega arith

    digit_odd : (n x d : ℕ) → d < 2 → n ≡ x * 2 + d → n % 2 ≡ d
    digit_odd n x d p e = omega arith
