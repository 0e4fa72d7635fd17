-- ===== src/Manager/Connect.antt =====
-- Connecting and reconnecting in jetsocket/manager.py. The methods call one another between waits,
-- for as long as attempts fail: the server's answers are a list, and a coroutine that has used them
-- up is still waiting.
use jetsocket.Prelude.{
  ℕ, ◌+◌, Bool, true, false, not, ◌||◌, ◌&&◌, Option, none, some, List, [], ◌∷◌, ltb, if◌then◌else◌,
}
use jetsocket.Exceptions.{Error, connection_error, invalid_state_error, Result, ok, err}
use jetsocket.State.{
  idle, connecting, connected, disconnected, reconnecting, backing_off, failed, closed, one_of,
}
use jetsocket.Float.{Float}
use jetsocket.Backoff.Defs as Backoff
use jetsocket.Stats.Defs as Stats
use jetsocket.Events.Defs.{Event}
use jetsocket.Manager.Defs.{
  returned, raised, waiting, Manager, Run, Now, emit, record_error, set_state, close, is_caught,
  is_fatal_error, is_fatal_code,
}
use jetsocket.Manager.Send.{replay_on_reconnect}

-- One wait for the backoff delay: the draw for the delay, and the code with which the user calls
-- `close` during the wait, where that happens.
pub record Pause (f : Float) : Type 0 where
  pub uniform : f.F → f.F → f.F
  pub closes : Option ℕ

-- One attempt to connect: what the transport's `connect` raises, if it raises, what becomes of the
-- messages of a replay, and the wait that follows a failure.
pub record Try (f : Float) (D T : Type 0) : Type 0 where
  pub now : Now f D
  pub failure : Option Error
  pub written : T → Result ℕ
  pub replayed : Result (Unit {0})
  pub pause : Pause f

module _ (f : Float) where
  -- `time.monotonic() - self._disconnect_time`, or 0.0
  abbrev downtime : f.F → Option f.F → f.F
  downtime now none = f.zero
  downtime now (some t) = f.sub now t

module _ {f : Float} {D T S : Type 0} where
  -- `_connect_internal` up to the transport's `connect`
  unfoldable pub begin_attempt : Manager f D T S → Manager f D T S
  begin_attempt m =
      let m1 = set_state connecting (record m { attempt = m.attempt + 1 }) in
      record (emit (Event.connecting m1.attempt) m1) { transport = true }

  -- `is_reconnect`: counts the first connection too, where attempts before it failed.
  unfoldable pub mark_attempt : Now f D → Manager f D T S → Manager f D T S
  mark_attempt now m =
      if ltb 1 m.attempt
      then emit (Event.reconnected m.attempt (downtime f now.time m.disconnect_time))
          (record m { stats = Stats.mark_reconnected f D now.time now.date m.stats })
      else record m { stats = Stats.mark_connected f D now.time m.stats }

  -- `_connect_internal` after the transport has connected
  unfoldable pub connect_succeeded : Try f D T → Manager f D T S → Manager f D T S
  connect_succeeded t m =
      let m1 = mark_attempt t.now m in
      let m2 = set_state connected (record m1 {
        backoff = Backoff.success f t.now.time m1.backoff;
        last_error = none;
        disconnect_time = none;
      }) in
      let m3 = emit Event.connected m2 in
      let m4 = if ltb 1 m.attempt then replay_on_reconnect t.now t.written t.replayed m3 else m3 in
      record m4 {
        heartbeat = m4.has_heartbeat || m4.heartbeat;
        age_task = m4.has_max_age || m4.age_task;
        message_task = true;
      }

  -- The user's `close` during the wait.
  abbrev pub during : Option ℕ → Manager f D T S → Manager f D T S
  during none m = m
  during (some code) m = close code m

  -- `_schedule_reconnect` after the wait
  unfoldable pub back_off_end : (Manager f D T S → Run f D T S) → Manager f D T S → Run f D T S
  back_off_end again m = if not m.running || m.user_closed then (returned, m) else again m

  -- `_schedule_reconnect` from the delay on
  unfoldable pub back_off :
      (Manager f D T S → Run f D T S) → Pause f → Result f.F → Manager f D T S → Run f D T S
  back_off again p (err e) m = (raised e, m)
  back_off again p (ok delay) m = back_off_end again (
      during p.closes
        (set_state backing_off (emit (Event.reconnecting m.backoff.attempt delay m.last_error) m)))

  -- `_schedule_reconnect`, with the attempt that follows
  unfoldable pub schedule_reconnect :
      (Manager f D T S → Run f D T S) → Pause f → Manager f D T S → Run f D T S
  schedule_reconnect again p m =
      if Backoff.exhausted f m.backoff
      then (returned, emit (Event.error connection_error true) (set_state failed m))
      else let m1 = set_state reconnecting m in
        let (delay, b) = Backoff.next_delay f p.uniform m1.backoff in
        back_off again p delay (record m1 { backoff = b })

  -- The handler of `except (ConnectionError, HandshakeError, TimeoutError)`
  unfoldable pub connect_failed :
      (Manager f D T S → Run f D T S) → Pause f → Error → Manager f D T S → Run f D T S
  connect_failed again p e m =
      let m1 =
        emit (Event.error e (is_fatal_error e)) (record_error (record m { last_error = some e })) in
      if is_fatal_error e
      then (raised e, set_state failed m1)
      else if m1.reconnect_enabled
      then schedule_reconnect again p m1
      else (raised e, set_state failed m1)

  unfoldable pub attempt_with :
      (Manager f D T S → Run f D T S) → Try f D T → Option Error → Manager f D T S → Run f D T S
  attempt_with again t none m = (returned, connect_succeeded t m)
  attempt_with again t (some e) m =
      if is_caught e then connect_failed again t.pause e m else (raised e, m)

  -- `_connect_internal`
  unfoldable pub connect_internal : List (Try f D T) → Manager f D T S → Run f D T S
  connect_internal [] m = (waiting, begin_attempt m)
  connect_internal (t ∷ ts) m = attempt_with (connect_internal ts) t t.failure (begin_attempt m)

  -- `connect`
  unfoldable pub connect : List (Try f D T) → Manager f D T S → Run f D T S
  connect ts m =
      if one_of m.state (idle ∷ disconnected ∷ [])
      then connect_internal ts (record m { user_closed = false; running = true })
      else (raised invalid_state_error, m)

  -- `_handle_disconnect`, with the reconnection that follows. The task that runs the heartbeat or
  -- the age timer may be the caller: it is then cancelled at its own wait, and goes on.
  unfoldable pub disconnect : ℕ → Bool → Now f D → Manager f D T S → Manager f D T S
  disconnect code was_clean now m = emit (Event.disconnected code was_clean) (
      set_state disconnected (record m {
        disconnect_time = some now.time;
        stats = Stats.mark_disconnected f D m.stats;
        age_task = false;
      }))

  unfoldable pub handle_disconnect :
      ℕ → Bool → Now f D → Pause f → List (Try f D T) → Manager f D T S → Run f D T S
  handle_disconnect code was_clean now p ts m =
      let m1 = disconnect code was_clean now m in
      if m1.reconnect_enabled && not m1.user_closed && not (is_fatal_code code)
      then schedule_reconnect (connect_internal ts) p m1
      else (returned, emit (Event.closed code false) (set_state closed m1))
