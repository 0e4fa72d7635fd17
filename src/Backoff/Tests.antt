-- ===== src/Backoff/Tests.antt =====
-- The theorems about the backoff strategy at concrete inputs, with whole numbers for the floats.
use jetsocket.Prelude.{ℕ, ◌+◌, ◌/◌, ◌<◌, ◌≡◌, ◌≢◌, refl, true, false, none, leb, arith}
use jetsocket.Exceptions.{ok, err, overflow_error}
use jetsocket.Float.Whole.{whole, whole_laws}
use jetsocket.Backoff.Defs.{BackoffConfig, Backoff, check_config, exhausted, next_delay}
use jetsocket.Backoff.Delays.{next_delay_bounds, next_delay_grows}
use jetsocket.Backoff.Attempts.{delays, count_ok, attempts_exact}

-- A draw in the middle.
abbrev middle : ℕ → ℕ → ℕ
middle a b = (a + b) / 2

middle_between :
    (a b : ℕ) → leb a b ≡ true → (leb a (middle a b) ≡ true) × (leb (middle a b) b ≡ true)
middle_between a b h = ground arith

abbrev config : BackoffConfig whole
config = record {
  base = 1;
  multiplier = 2;
  cap = 60;
  jitter = true;
  max_attempts = 5;
  reset_after = 60;
}

abbrev fourth : Backoff whole
fourth = record { config = config; attempt = 3; last_success = none }

next_delay-fourth : (next_delay whole middle fourth).0 ≡ ok 4
unfolding next_delay
next_delay-fourth = refl

config_ok : check_config whole config ≡ ok tt
unfolding check_config
config_ok = refl

next_delay_bounds_example : (leb 0 4 ≡ true) × (leb 4 60 ≡ true)
next_delay_bounds_example =
    next_delay_bounds whole whole_laws middle fourth 4 middle_between config_ok next_delay-fourth

abbrev plain : Backoff whole
plain = record { config = record config { jitter = false }; attempt = 3; last_success = none }

plain_ok : check_config whole plain.config ≡ ok tt
unfolding check_config
plain_ok = refl

plain_fourth : (next_delay whole middle plain).0 ≡ ok 8
unfolding next_delay
plain_fourth = refl

plain_fifth : (next_delay whole middle (next_delay whole middle plain).1).0 ≡ ok 16
unfolding next_delay
plain_fifth = refl

next_delay_grows_example : leb 8 16 ≡ true
next_delay_grows_example =
    next_delay_grows whole whole_laws middle plain 8 16 plain_ok refl plain_fourth plain_fifth

in_range : (k : ℕ) → k < 5 → whole.pow 2 k ≢ none
in_range k lt e = ground arith

attempts_exact_example :
    (count_ok whole middle (delays whole middle 9 fourth).0 ≡ 2)
    × ((delays whole middle 9 fourth).1.attempt ≡ 5)
attempts_exact_example = attempts_exact whole middle 9 fourth in_range (omega arith) (omega arith)

-- Without a maximum, after 1024 attempts.
abbrev endless : Backoff whole
endless = record {
  config = record config { max_attempts = 0 };
  attempt = 1024;
  last_success = none;
}

-- The power overflows.
endless_stuck : next_delay whole middle endless ≡ (err overflow_error, endless)
unfolding next_delay exhausted
endless_stuck = refl
