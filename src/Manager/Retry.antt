-- ===== src/Manager/Retry.antt =====
-- The loop of `_connect_internal` and `_schedule_reconnect` in jetsocket/manager.py: attempt, wait,
-- attempt again.
use jetsocket.Prelude.{ℕ, ◌≡◌, Bool, true, false, not, ◌&&◌, Option, none, some, List, [], ◌∷◌}
use jetsocket.Exceptions.{Error}
use jetsocket.State.{failed}
use jetsocket.Float.{Float}
use jetsocket.Backoff.Defs.{Backoff}
use jetsocket.Manager.Defs.{returned, Manager, Run, is_caught, is_fatal_error}
use jetsocket.Manager.Connect.{Try}

-- A failure after which the manager tries again.
abbrev pub is_transient : Option Error → Bool
is_transient none = false
is_transient (some e) = is_caught e && not (is_fatal_error e)

abbrev pub is_left_open : Option ℕ → Bool
is_left_open none = true
is_left_open (some code) = false

module _ {f : Float} {D T : Type 0} where
  -- Attempts that all fail, while the user does not call `close`.
  abbrev pub all_fail : List (Try f D T) → Bool
  all_fail [] = true
  all_fail (t ∷ ts) = is_transient t.failure && is_left_open t.pause.closes && all_fail ts

module _ {f : Float} {D T S : Type 0} where
  -- A manager that reconnects, with its backoff and its number of attempts.
  pub record IsRetrying (b : Backoff f) (n : ℕ) (m : Manager f D T S) : Type 0 where
    pub reconnects : m.reconnect_enabled ≡ true
    pub runs : m.running ≡ true
    pub stays : m.user_closed ≡ false
    pub waits : m.backoff ≡ b
    pub tries : m.attempt ≡ n

  -- A run that has failed without an exception, with its attempts and those of its backoff.
  abbrev pub GivesUp : Run f D T S → ℕ → ℕ → Type 0
  GivesUp r attempts delays =
      (r.0 ≡ returned)
      × (r.1.state ≡ failed)
      × (r.1.attempt ≡ attempts)
      × (r.1.backoff.attempt ≡ delays)
