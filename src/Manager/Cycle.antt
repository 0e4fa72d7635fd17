-- ===== src/Manager/Cycle.antt =====
-- Connecting, reconnecting and the message loop in jetsocket/manager.py keep the log consistent.
use jetsocket.Prelude.{
  ℕ, ◌+◌, refl, Bool, true, false, not, ◌||◌, ◌&&◌, Option, none, some, List, [], ◌∷◌, ltb,
  if◌then◌else◌, if_either, arith,
}
use jetsocket.Exceptions.{Error, Result, ok, err}
use jetsocket.State.{
  idle, connecting, connected, disconnected, reconnecting, backing_off, failed, closed, one_of,
}
use jetsocket.Float.{Float}
use jetsocket.Backoff.Defs as Backoff
use jetsocket.Stats.Defs as Stats
use jetsocket.Events.Defs.{Event}
use jetsocket.Manager.Defs.{
  Manager, Run, Now, emit, set_state, record_error, is_caught, is_fatal_error, is_fatal_code,
}
use jetsocket.Manager.Send.{replay_on_reconnect}
use jetsocket.Manager.Connect.{
  Pause, Try, begin_attempt, mark_attempt, connect_succeeded, during, back_off, back_off_end,
  schedule_reconnect, connect_failed, attempt_with, connect_internal, connect, disconnect,
  handle_disconnect,
}
use jetsocket.Manager.Consistent.{
  IsConsistent, emit_neutral, set_state-IsConsistent, close-IsConsistent,
}
use jetsocket.Manager.Messages.{replay_on_reconnect-IsConsistent}

module _ {f : Float} {D T S : Type 0} where
  begin_attempt-IsConsistent :
      (m : Manager f D T S) → IsConsistent m → IsConsistent (begin_attempt m)
  unfolding begin_attempt
  begin_attempt-IsConsistent m h =
      let m1 : Manager f D T S = record m { attempt = m.attempt + 1 } in
      emit_neutral (Event.connecting (set_state connecting m1).attempt) refl
        (set_state-IsConsistent connecting m1 h)

  mark_attempt-IsConsistent :
      (now : Now f D) (m : Manager f D T S) → IsConsistent m → IsConsistent (mark_attempt now m)
  unfolding mark_attempt Stats.mark_reconnected Stats.mark_connected
  mark_attempt-IsConsistent now m h =
      if_either IsConsistent (ltb 1 m.attempt)
        (λ _. record {
          state_of_log = h.state_of_log;
          state_of_stats = h.state_of_stats;
          reconnects = omega (arith, h.reconnects);
          receipts = h.receipts;
          reports = h.reports;
          drops = h.drops;
        })
        (λ _. h)

  replayed_if :
      (b : Bool) (t : Try f D T) (m : Manager f D T S)
      → IsConsistent m
      → IsConsistent (if b then replay_on_reconnect t.now t.written t.replayed m else m)
  replayed_if b t m h =
      if_either IsConsistent b
        (λ _. replay_on_reconnect-IsConsistent t.now t.written t.replayed m h) (λ _. h)

  connect_succeeded-IsConsistent :
      (t : Try f D T) (m : Manager f D T S) → IsConsistent m → IsConsistent (connect_succeeded t m)
  unfolding connect_succeeded
  connect_succeeded-IsConsistent t m h =
      let m1 = mark_attempt t.now m in
      let m2 : Manager f D T S = record m1 {
        backoff = Backoff.success f t.now.time m1.backoff;
        last_error = none;
        disconnect_time = none;
      } in
      replayed_if (ltb 1 m.attempt) t (emit Event.connected (set_state connected m2)) (
        emit_neutral Event.connected refl
          (set_state-IsConsistent connected m2 (mark_attempt-IsConsistent t.now m h)))

  during-IsConsistent :
      (closes : Option ℕ) (m : Manager f D T S) → IsConsistent m → IsConsistent (during closes m)
  during-IsConsistent none m h = h
  during-IsConsistent (some code) m h = close-IsConsistent code m h

  -- What a run from a consistent manager ends in.
  abbrev pub KeepsConsistent : (Manager f D T S → Run f D T S) → Type 0
  KeepsConsistent run = (m : Manager f D T S) → IsConsistent m → IsConsistent (run m).1

  back_off_end-keeps :
      (again : Manager f D T S → Run f D T S)
      → KeepsConsistent again
      → KeepsConsistent (back_off_end again)
  unfolding back_off_end
  back_off_end-keeps again k m h =
      if_either (λ (r : Run f D T S). IsConsistent r.1) (not m.running || m.user_closed) (λ _. h)
        (λ _. k m h)

  back_off-keeps :
      (again : Manager f D T S → Run f D T S)
      → KeepsConsistent again
      → (p : Pause f) (r : Result f.F) → KeepsConsistent (back_off again p r)
  unfolding back_off
  back_off-keeps again k p (err e) m h = h
  back_off-keeps again k p (ok delay) m h =
      let m1 : Manager f D T S = emit (Event.reconnecting m.backoff.attempt delay m.last_error) m in
      back_off_end-keeps again k (during p.closes (set_state backing_off m1)) (
        during-IsConsistent p.closes (set_state backing_off m1)
          (set_state-IsConsistent backing_off m1 (emit_neutral _ refl h)))

  schedule_reconnect-keeps :
      (again : Manager f D T S → Run f D T S)
      → KeepsConsistent again
      → (p : Pause f) → KeepsConsistent (schedule_reconnect again p)
  unfolding schedule_reconnect
  schedule_reconnect-keeps again k p m h =
      if_either (λ (r : Run f D T S). IsConsistent r.1) (Backoff.exhausted f m.backoff)
        (λ _. emit_neutral _ refl (set_state-IsConsistent failed m h))
        (λ _. back_off-keeps again k p _ _ (set_state-IsConsistent reconnecting m h))

  connect_failed-keeps :
      (again : Manager f D T S → Run f D T S)
      → KeepsConsistent again
      → (p : Pause f) (e : Error) → KeepsConsistent (connect_failed again p e)
  unfolding connect_failed Stats.record_error
  connect_failed-keeps again k p e m h =
      let m1 : Manager f D T S =
        emit (Event.error e (is_fatal_error e)) (record_error (record m { last_error = some e })) in
      let h1 : IsConsistent m1 = emit_neutral (Event.error e (is_fatal_error e)) refl h in
      if_either (λ (r : Run f D T S). IsConsistent r.1) (is_fatal_error e)
        (λ _. set_state-IsConsistent failed m1 h1)
        (λ _.
          if_either (λ (r : Run f D T S). IsConsistent r.1) m.reconnect_enabled
            (λ _. schedule_reconnect-keeps again k p m1 h1)
            (λ _. set_state-IsConsistent failed m1 h1))

  attempt_with-keeps :
      (again : Manager f D T S → Run f D T S)
      → KeepsConsistent again
      → (t : Try f D T) (failure : Option Error) → KeepsConsistent (attempt_with again t failure)
  unfolding attempt_with
  attempt_with-keeps again k t none m h = connect_succeeded-IsConsistent t m h
  attempt_with-keeps again k t (some e) m h =
      if_either (λ (r : Run f D T S). IsConsistent r.1) (is_caught e)
        (λ _. connect_failed-keeps again k t.pause e m h) (λ _. h)

  pub connect_internal-keeps : (ts : List (Try f D T)) → KeepsConsistent (connect_internal ts)
  unfolding connect_internal
  connect_internal-keeps [] m h = begin_attempt-IsConsistent m h
  connect_internal-keeps (t ∷ ts) m h =
      attempt_with-keeps (connect_internal ts) (connect_internal-keeps ts) t t.failure
        (begin_attempt m) (begin_attempt-IsConsistent m h)

  pub connect-keeps : (ts : List (Try f D T)) → KeepsConsistent (connect ts)
  unfolding connect
  connect-keeps ts m h =
      if_either (λ (r : Run f D T S). IsConsistent r.1) (one_of m.state (idle ∷ disconnected ∷ []))
        (λ _. connect_internal-keeps ts (record m { user_closed = false; running = true }) h)
        (λ _. h)

  pub handle_disconnect-keeps :
      (code : ℕ) (was_clean : Bool) (now : Now f D) (p : Pause f) (ts : List (Try f D T))
      → KeepsConsistent (handle_disconnect code was_clean now p ts)
  unfolding handle_disconnect disconnect Stats.mark_disconnected
  handle_disconnect-keeps code was_clean now p ts m h =
      let m1 : Manager f D T S = record m {
        disconnect_time = some now.time;
        stats = Stats.mark_disconnected f D m.stats;
        age_task = false;
      } in
      let m2 : Manager f D T S =
        emit (Event.disconnected code was_clean) (set_state disconnected m1) in
      let h2 : IsConsistent m2 =
        emit_neutral (Event.disconnected code was_clean) refl
          (set_state-IsConsistent disconnected m1 h) in
      if_either (λ (r : Run f D T S). IsConsistent r.1)
        (m2.reconnect_enabled && not m2.user_closed && not (is_fatal_code code))
        (λ _. schedule_reconnect-keeps (connect_internal ts) (connect_internal-keeps ts) p m2 h2)
        (λ _. emit_neutral (Event.closed code false) refl (set_state-IsConsistent closed m2 h2))
