-- ===== src/Float/Whole.antt =====
-- Whole numbers in place of Python's floats, with powers that overflow from the exponent 1024 on.
use native.Mathlib.Nat.{one-le-pow, pow-le-pow_right, mul-le-mul_left}
use jetsocket.Prelude.{
  leb→le, le→leb, ℕ, suc, ◌-◌, ◌*◌, ◌/◌, ◌^◌, ◌≡◌, refl, none, some, ltb, leb, arith, if◌then◌else◌,
}
use jetsocket.Float.{Float, FloatLaws}

abbrev pub whole : Float
whole = record {
  F = ℕ;
  zero = 0;
  one = 1;
  lt = ltb;
  le = leb;
  mul = λ a b. a * b;
  sub = λ a b. a - b;
  half = λ a. a / 2;
  thousandfold = λ a. a * 1000;
  pow = λ a n. if ltb n 1024 then some (a ^ n) else none;
}

pow_value : (a n : ℕ) {b : ℕ} → whole.pow a n ≡ some b → b ≡ a ^ n
pow_value a n h = ground arith

pub whole_laws : FloatLaws whole
whole_laws = record {
  le_of_not_lt = λ a b h. ground arith;
  le_of_lt = λ a b h. ground arith;
  le_total = λ a b h. ground arith;
  le_refl = λ a. ground arith;
  le_trans = λ a b c h k. ground arith;
  zero_le_one = refl;
  mul_nonneg = λ a b h k. ground arith;
  mul_mono = λ a b c h k. le→leb _ _ (mul-le-mul_left a (leb→le b c k));
  pow_ge_one = λ a b n h e. le→leb 1 b (rw (pow_value a n e) (one-le-pow n a (leb→le 1 a h)));
  pow_mono = λ a b c n h e k.
      le→leb b c (
        rw (pow_value a n e, pow_value a (suc n) k)
          (pow-le-pow_right (leb→le 1 a h) (omega arith)));
}
