-- ===== src/Backoff/Delays.antt =====
-- How long the delays of jetsocket/backoff.py are.
use jetsocket.Prelude.{
  ℕ, suc, ◌+◌, ◌≡◌, refl, sym, ap, ◌∙◌, subst, true, false, Option, none, some, Bool-cases, inl,
  inr, arith, if◌then◌else◌, if_true, if_false,
}
use jetsocket.Exceptions.{Error, Result, ok, err}
use jetsocket.Float.{Float, FloatLaws}
use jetsocket.Backoff.Defs.{
  BackoffConfig, Backoff, check_config, exhausted, min, delayed, next_delay,
}
use native.Mathlib.Numerals.{add-one}

module _ (f : Float) (laws : FloatLaws f) where
  min-le_right : (a b : f.F) → f.le (min f a b) b ≡ true
  min-le_right a b = elim (Bool-cases (f.lt b a)) [
    | inl less ↦ rw less (laws.le_refl b)
    | inr more ↦ rw more (laws.le_of_not_lt a b more)
  ]

  min-le_left : (a b : f.F) → f.le (min f a b) a ≡ true
  min-le_left a b = elim (Bool-cases (f.lt b a)) [
    | inl less ↦ rw less (laws.le_of_lt b a less)
    | inr more ↦ rw more (laws.le_refl a)
  ]

  le-min : (c a b : f.F) → f.le c a ≡ true → f.le c b ≡ true → f.le c (min f a b) ≡ true
  le-min c a b p q = elim (Bool-cases (f.lt b a)) [ inl less ↦ rw less q | inr more ↦ rw more p ]

  min_mono : (a a' b : f.F) → f.le a a' ≡ true → f.le (min f a b) (min f a' b) ≡ true
  min_mono a a' b h =
      le-min (min f a b) a' b (laws.le_trans _ _ _ (min-le_left a b) h) (min-le_right a b)

  -- What a valid configuration gives.
  record IsValid (c : BackoffConfig f) : Type 0 where
    base_nonneg : f.le f.zero c.base ≡ true
    multiplier_ge_one : f.le f.one c.multiplier ≡ true
    cap_nonneg : f.le f.zero c.cap ≡ true

  check_config-IsValid : (c : BackoffConfig f) → check_config f c ≡ ok tt → IsValid c
  unfolding check_config
  check_config-IsValid c h =
      let facts : (f.le c.base f.zero ≡ false)
          × (f.lt c.multiplier f.one ≡ false)
          × (f.lt c.cap c.base ≡ false) =
        ground arith in
      let base = laws.le_total c.base f.zero facts.0 in
      record {
        base_nonneg = base;
        multiplier_ge_one = laws.le_of_not_lt f.one c.multiplier facts.1;
        cap_nonneg = laws.le_trans _ _ _ base (laws.le_of_not_lt c.base c.cap facts.2);
      }

  -- What is known where `next_delay` gave a delay.
  record Gave (uniform : f.F → f.F → f.F) (s : Backoff f) (d : f.F) : Type 0 where
    power : f.F
    power_of : f.pow s.config.multiplier s.attempt ≡ some power
    value : d ≡ (
        if s.config.jitter
        then uniform f.zero (min f (f.mul s.config.base power) s.config.cap)
        else min f (f.mul s.config.base power) s.config.cap)
    state : (next_delay f uniform s).1 ≡ record s { attempt = s.attempt + 1 }

  ok_ne_err : {A : Type 0} {a : A} {x : Error} → err x ≡ ok a → ⊥
  ok_ne_err e = cc

  ok_injective : {a b : f.F} → ok a ≡ ok b → a ≡ b
  ok_injective e = cc

  delayed-Gave :
      (uniform : f.F → f.F → f.F) (s : Backoff f) (d : f.F) (o : Option f.F)
      → f.pow s.config.multiplier s.attempt ≡ o
      → (delayed f uniform s o).0 ≡ ok d
      → (next_delay f uniform s).1 ≡ (delayed f uniform s o).1
      → Gave uniform s d
  unfolding delayed
  delayed-Gave uniform s d none e h state = cc
  delayed-Gave uniform s d (some power) e h state = record {
    power = power;
    power_of = e;
    value = sym (ok_injective h);
    state = state;
  }

  next_delay-Gave :
      (uniform : f.F → f.F → f.F) (s : Backoff f) (d : f.F)
      → (next_delay f uniform s).0 ≡ ok d
      → Gave uniform s d
  unfolding next_delay
  next_delay-Gave uniform s d h = elim (Bool-cases (exhausted f s)) [
    | inl over ↦
        absurd (ok_ne_err (sym (ap (λ (p : Result f.F × Backoff f). p.0) (if_true _ _ _ over)) ∙ h))
    | inr more ↦
        delayed-Gave uniform s d (f.pow s.config.multiplier s.attempt) refl
          (sym (ap (λ (p : Result f.F × Backoff f). p.0) (if_false _ _ _ more)) ∙ h)
          (ap (λ (p : Result f.F × Backoff f). p.1) (if_false _ _ _ more))
  ]

  undrawn : BackoffConfig f → f.F → f.F
  undrawn c power = min f (f.mul c.base power) c.cap

  undrawn_bounds :
      (c : BackoffConfig f) (n : ℕ) {power : f.F}
      → IsValid c
      → f.pow c.multiplier n ≡ some power
      → (f.le f.zero (undrawn c power) ≡ true) × (f.le (undrawn c power) c.cap ≡ true)
  unfolding undrawn
  undrawn_bounds c n {power} v e =
      let power_nonneg =
        laws.le_trans f.zero f.one power laws.zero_le_one
          (laws.pow_ge_one c.multiplier power n v.multiplier_ge_one e) in
      (
        le-min f.zero (f.mul c.base power) c.cap
            (laws.mul_nonneg c.base power v.base_nonneg power_nonneg) v.cap_nonneg,
        min-le_right (f.mul c.base power) c.cap,
      )

  -- With a valid configuration every delay that `next_delay` gives lies between zero and the cap,
  -- whatever is drawn.
  pub next_delay_bounds :
      (uniform : f.F → f.F → f.F) (s : Backoff f) (d : f.F)
      → ((a b : f.F)
          → f.le a b ≡ true
          → (f.le a (uniform a b) ≡ true) × (f.le (uniform a b) b ≡ true))
      → check_config f s.config ≡ ok tt
      → (next_delay f uniform s).0 ≡ ok d
      → (f.le f.zero d ≡ true) × (f.le d s.config.cap ≡ true)
  unfolding undrawn
  next_delay_bounds uniform s d drawn valid h =
      let g = next_delay-Gave uniform s d h in
      let b = undrawn_bounds s.config s.attempt (check_config-IsValid s.config valid) g.power_of in
      let u = drawn f.zero (undrawn s.config g.power) b.0 in
      rw g.value (elim (Bool-cases s.config.jitter) [
        | inl yes_jitter ↦ rw yes_jitter (u.0, laws.le_trans _ _ _ u.1 b.1)
        | inr no_jitter ↦ rw no_jitter b
      ])

  -- Without jitter and with a valid configuration a delay is at least as long as the one before.
  pub next_delay_grows :
      (uniform : f.F → f.F → f.F) (s : Backoff f) (d d' : f.F)
      → check_config f s.config ≡ ok tt
      → s.config.jitter ≡ false
      → (next_delay f uniform s).0 ≡ ok d
      → (next_delay f uniform (next_delay f uniform s).1).0 ≡ ok d'
      → f.le d d' ≡ true
  unfolding undrawn
  next_delay_grows uniform s d d' valid plain h h' =
      let v = check_config-IsValid s.config valid in
      let g = next_delay-Gave uniform s d h in
      let g' =
        next_delay-Gave uniform (record s { attempt = s.attempt + 1 }) d'
          (subst (λ (t : Backoff f). (next_delay f uniform t).0 ≡ ok d') g.state h') in
      let first : d ≡ undrawn s.config g.power = g.value ∙ if_false _ _ _ plain in
      let second : d' ≡ undrawn s.config g'.power = g'.value ∙ if_false _ _ _ plain in
      let next : f.pow s.config.multiplier (suc s.attempt) ≡ some g'.power =
        ap (f.pow s.config.multiplier) (sym (add-one s.attempt)) ∙ g'.power_of in
      rw (first, second)
        (min_mono _ _ s.config.cap (
          laws.mul_mono s.config.base g.power g'.power v.base_nonneg
            (laws.pow_mono _ _ _ s.attempt v.multiplier_ge_one g.power_of next)))
