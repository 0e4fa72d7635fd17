-- ===== src/Float.antt =====
-- Python's floats, of which the program uses arithmetic, order and powers: a parameter of the
-- components that compute with times and delays, with the laws of finite floats that they rely on.
pub mod Whole
use jetsocket.Prelude.{ℕ, suc, Bool, true, false, ◌≡◌, Option, some}

pub record Float : Type 1 where
  pub F : Type 0
  pub zero : F
  pub one : F
  -- `a < b` and `a <= b`
  pub lt : F → F → Bool
  pub le : F → F → Bool
  pub mul : F → F → F
  pub sub : F → F → F
  pub half : F → F
  -- `a * 1000`
  pub thousandfold : F → F
  -- `a ** n`, which raises OverflowError out of range
  pub pow : F → ℕ → Option F

-- The order is total and transitive, products and powers are monotone. Not-a-number, which breaks
-- the order, does not come up in what is stated under these laws.
pub record FloatLaws (f : Float) : Type 0 where
  pub le_of_not_lt : (a b : f.F) → f.lt b a ≡ false → f.le a b ≡ true
  pub le_of_lt : (a b : f.F) → f.lt a b ≡ true → f.le a b ≡ true
  pub le_total : (a b : f.F) → f.le a b ≡ false → f.le b a ≡ true
  pub le_refl : (a : f.F) → f.le a a ≡ true
  pub le_trans : (a b c : f.F) → f.le a b ≡ true → f.le b c ≡ true → f.le a c ≡ true
  pub zero_le_one : f.le f.zero f.one ≡ true
  pub mul_nonneg :
      (a b : f.F) → f.le f.zero a ≡ true → f.le f.zero b ≡ true → f.le f.zero (f.mul a b) ≡ true
  pub mul_mono :
      (a b c : f.F) → f.le f.zero a ≡ true → f.le b c ≡ true → f.le (f.mul a b) (f.mul a c) ≡ true
  pub pow_ge_one :
      (a b : f.F) (n : ℕ) → f.le f.one a ≡ true → f.pow a n ≡ some b → f.le f.one b ≡ true
  pub pow_mono :
      (a b c : f.F) (n : ℕ)
      → f.le f.one a ≡ true
      → f.pow a n ≡ some b
      → f.pow a (suc n) ≡ some c
      → f.le b c ≡ true
