-- ===== src/Manager/Wait.antt =====
-- The user's `close` while jetsocket/manager.py waits to reconnect.
use jetsocket.Prelude.{
  ℕ, ◌≡◌, ◌≢◌, refl, sym, ap, subst, ◌∙◌, true, false, not, ◌||◌, none, some, if_true, if_false,
  arith,
}
use jetsocket.Exceptions.{Result, ok, err}
use jetsocket.State.{reconnecting, backing_off}
use jetsocket.Float.{Float}
use jetsocket.Backoff.Defs.{exhausted, next_delay}
use jetsocket.Backoff.Attempts.{succeeded, next_succeeds}
use jetsocket.Events.Defs.{Event}
use jetsocket.Manager.Defs.{returned, Manager, Run, emit, set_state, close}
use jetsocket.Manager.SetState.{set_state-frame}
use jetsocket.Manager.Connect.{Pause, schedule_reconnect, back_off, back_off_end, during}
use jetsocket.Manager.Stop.{IsStopped, close-IsStopped}

module _ {f : Float} {D T S : Type 0} where
  -- A run that has returned with the manager stopped.
  abbrev pub EndsStopped : Run f D T S → Type 0
  EndsStopped r = (r.0 ≡ returned) × IsStopped r.1

  ends :
      (again : Manager f D T S → Run f D T S) (m : Manager f D T S)
      → IsStopped m
      → EndsStopped (back_off_end again m)
  unfolding back_off_end
  ends again m h =
      subst EndsStopped (sym (if_true (not m.running || m.user_closed) _ _ (rw h.1 refl))) (refl, h)

  cancelled :
      (again : Manager f D T S → Run f D T S) (p : Pause f) (code : ℕ) (r : Result f.F)
      (m : Manager f D T S)
      → succeeded r ≡ true
      → p.closes ≡ some code
      → EndsStopped (back_off again p r m)
  unfolding back_off
  cancelled again p code (err e) m ok_delay closes = absurd (ground arith)
  cancelled again p code (ok delay) m ok_delay closes =
      let m1 : Manager f D T S =
        set_state backing_off (emit (Event.reconnecting m.backoff.attempt delay m.last_error) m) in
      subst (λ o. EndsStopped (back_off_end again (during o m1))) (sym closes)
        (ends again (close code m1) (close-IsStopped code m1))

  -- Where the user calls `close` during the wait for a reconnection, the reconnection ends there,
  -- whatever the next attempt would do, with the manager in a terminal state and not running: as
  -- long as the backoff has attempts left and its power is in range.
  pub close_cancels_retry :
      (again : Manager f D T S → Run f D T S) (p : Pause f) (code : ℕ) (m : Manager f D T S)
      → exhausted f m.backoff ≡ false
      → f.pow m.backoff.config.multiplier m.backoff.attempt ≢ none
      → p.closes ≡ some code
      → EndsStopped (schedule_reconnect again p m)
  unfolding schedule_reconnect
  close_cancels_retry again p code m more in_range closes =
      let e = set_state-frame (λ m. m.backoff) reconnecting m (λ _ _ _. refl) in
      let next = next_succeeds f p.uniform m.backoff more in_range in
      subst EndsStopped (sym (if_false (exhausted f m.backoff) _ _ more)) (
        cancelled again p code _ _ (ap (λ b. succeeded (next_delay f p.uniform b).0) e ∙ next.0)
          closes)
