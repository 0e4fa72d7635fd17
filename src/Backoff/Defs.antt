-- ===== src/Backoff/Defs.antt =====
-- `BackoffConfig` and `BackoffStrategy` of jetsocket/backoff.py. The clock's reading and the random
-- draw of a call are arguments of it. `max_attempts` is a natural number, so that the check for a
-- negative one is met by the type.
use jetsocket.Prelude.{ℕ, ◌+◌, Bool, true, false, Option, none, some, leb, ◌==◌, if◌then◌else◌}
use jetsocket.Exceptions.{Result, ok, err, value_error, runtime_error, overflow_error}
use jetsocket.Float.{Float}

module _ (f : Float) where
  pub record BackoffConfig : Type 0 where
    pub base : f.F
    pub multiplier : f.F
    pub cap : f.F
    pub jitter : Bool
    pub max_attempts : ℕ
    pub reset_after : f.F

  -- `BackoffConfig.__post_init__`
  unfoldable pub check_config : BackoffConfig → Result (Unit {0})
  check_config c =
      if f.le c.base f.zero
      then err value_error
      else if f.lt c.multiplier f.one
      then err value_error
      else if f.lt c.cap c.base
      then err value_error
      else if f.lt c.reset_after f.zero
      then err value_error
      else ok tt

  pub record Backoff : Type 0 where
    pub config : BackoffConfig
    pub attempt : ℕ
    pub last_success : Option f.F

  -- `BackoffStrategy.__init__`
  unfoldable pub init : BackoffConfig → Backoff
  init config = record { config = config; attempt = 0; last_success = none }

  unfoldable pub exhausted : Backoff → Bool
  exhausted s = if s.config.max_attempts == 0 then false else leb s.config.max_attempts s.attempt

  -- Python's `min(a, b)`.
  abbrev pub min : f.F → f.F → f.F
  min a b = if f.lt b a then b else a

  -- The part of `next_delay` after the power, which may have raised.
  unfoldable pub delayed : (f.F → f.F → f.F) → Backoff → Option f.F → Result f.F × Backoff
  delayed uniform s none = (err overflow_error, s)
  delayed uniform s (some power) =
      let delay = min (f.mul s.config.base power) s.config.cap in
      (
        ok (if s.config.jitter then uniform f.zero delay else delay),
        record s { attempt = s.attempt + 1 },
      )

  unfoldable pub next_delay : (f.F → f.F → f.F) → Backoff → Result f.F × Backoff
  unfolding delayed exhausted
  next_delay uniform s =
      if exhausted s
      then (err runtime_error, s)
      else delayed uniform s (f.pow s.config.multiplier s.attempt)

  unfoldable pub peeked : Backoff → Option f.F → Result f.F
  peeked s none = err overflow_error
  peeked s (some power) =
      let delay = min (f.mul s.config.base power) s.config.cap in
      ok (if s.config.jitter then f.half delay else delay)

  unfoldable pub peek_delay : Backoff → Result f.F
  unfolding peeked
  peek_delay s = peeked s (f.pow s.config.multiplier s.attempt)

  unfoldable pub success : f.F → Backoff → Backoff
  success now s = record s { last_success = some now }

  unfoldable pub reset : Backoff → Backoff
  reset s = record s { attempt = 0; last_success = none }

  unfoldable pub reset_since : f.F → Backoff → Option f.F → Bool × Backoff
  reset_since now s none = (false, s)
  reset_since now s (some since) =
      if f.le s.config.reset_after (f.sub now since)
      then (true, record s { attempt = 0 })
      else (false, s)

  unfoldable pub maybe_reset : f.F → Backoff → Bool × Backoff
  unfolding reset_since
  maybe_reset now s = reset_since now s s.last_success
