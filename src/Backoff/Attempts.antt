-- ===== src/Backoff/Attempts.antt =====
-- How many delays jetsocket/backoff.py gives, and what stops it.
use jetsocket.Prelude.{
  ℕ, zero, suc, ◌+◌, ◌-◌, ◌≤◌, ◌<◌, ◌≡◌, ◌≢◌, refl, ap, Bool, true, false, Option, none, some, List,
  [], ◌∷◌, replicate, min, dec_lt, arith, if◌then◌else◌,
}
use jetsocket.Exceptions.{Error, Result, ok, err, runtime_error}
use jetsocket.Float.{Float}
use jetsocket.Backoff.Defs.{Backoff, exhausted, delayed, next_delay}

-- Where a call gave a value.
abbrev pub succeeded {ℓ} : {A : Type ℓ} → Result A → Bool
succeeded (ok a) = true
succeeded (err e) = false

module _ (f : Float) (uniform : f.F → f.F → f.F) where
  -- Calls of `next_delay` in a row, and what each gave.
  unfoldable pub delays : ℕ → Backoff f → List (Result f.F) × Backoff f
  delays zero s = ([], s)
  delays (suc n) s =
      let (r, s') = next_delay f uniform s in let (rs, s'') = delays n s' in (r ∷ rs, s'')

  abbrev pub count_ok : List (Result f.F) → ℕ
  count_ok [] = 0
  count_ok (r ∷ rs) = (if succeeded r then 1 else 0) + count_ok rs

  -- A call that raised has changed nothing.
  delayed_succeeds :
      (s : Backoff f) (o : Option f.F)
      → o ≢ none
      → (succeeded (delayed f uniform s o).0 ≡ true)
        × ((delayed f uniform s o).1 ≡ record s { attempt = s.attempt + 1 })
  unfolding delayed
  delayed_succeeds s none h = absurd (h refl)
  delayed_succeeds s (some power) h = (refl, refl)

  pub going_on :
      (s : Backoff f) (max_attempts : ℕ)
      → s.config.max_attempts ≡ max_attempts
      → s.attempt < max_attempts
      → exhausted f s ≡ false
  unfolding exhausted
  going_on s max_attempts e lt = ground arith

  pub used_up :
      (s : Backoff f) (max_attempts : ℕ)
      → s.config.max_attempts ≡ max_attempts
      → 0 < max_attempts
      → max_attempts ≤ s.attempt
      → exhausted f s ≡ true
  unfolding exhausted
  used_up s max_attempts e pos le = ground arith

  count_ok-replicate : (n : ℕ) (e : Error) → count_ok (replicate n (err e)) ≡ 0
  count_ok-replicate zero e = refl
  count_ok-replicate (suc n) e = omega (arith, count_ok-replicate n e)

  delays_over :
      (n : ℕ) (s : Backoff f)
      → exhausted f s ≡ true
      → delays n s ≡ (replicate n (err runtime_error), s)
  unfolding delays next_delay
  delays_over zero s over = refl
  delays_over (suc n) s over = rw over (
      ap (λ (p : List (Result f.F) × Backoff f). (err runtime_error ∷ p.0, p.1))
        (delays_over n s over))

  attempts_over :
      (n : ℕ) (s : Backoff f)
      → exhausted f s ≡ true
      → (count_ok (delays n s).0 ≡ 0) × ((delays n s).1.attempt ≡ s.attempt)
  attempts_over n s over = rw (delays_over n s over) (count_ok-replicate n runtime_error, refl)

  pub next_succeeds :
      (s : Backoff f)
      → exhausted f s ≡ false
      → f.pow s.config.multiplier s.attempt ≢ none
      → (succeeded (next_delay f uniform s).0 ≡ true)
        × ((next_delay f uniform s).1 ≡ record s { attempt = s.attempt + 1 })
  unfolding next_delay
  next_succeeds s more h = rw more (delayed_succeeds s (f.pow s.config.multiplier s.attempt) h)

  -- In `n` calls in a row the strategy gives as many delays as there are attempts left, and no
  -- more, if its powers stay in range up to `max_attempts`; and each delay is one attempt.
  pub attempts_exact :
      (n : ℕ) (s : Backoff f)
      → ((k : ℕ) → k < s.config.max_attempts → f.pow s.config.multiplier k ≢ none)
      → 0 < s.config.max_attempts
      → s.attempt ≤ s.config.max_attempts
      → (count_ok (delays n s).0 ≡ min n (s.config.max_attempts - s.attempt))
        × ((delays n s).1.attempt ≡ s.attempt + min n (s.config.max_attempts - s.attempt))
  unfolding delays
  attempts_exact zero s in_range pos le = omega arith
  attempts_exact (suc n) s in_range pos le = elim (dec_lt s.attempt s.config.max_attempts) [
    | no over ↦
        omega
          (arith, attempts_over (suc n) s (used_up s s.config.max_attempts refl pos (omega arith)))
    | yes more ↦
        let p =
          next_succeeds s (going_on s s.config.max_attempts refl more) (in_range s.attempt more) in
        let rest =
          attempts_exact n (record s { attempt = s.attempt + 1 }) in_range pos (omega arith) in
        rw (p.0, p.1) (omega (arith, rest))
  ]
