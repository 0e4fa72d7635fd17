-- ===== src/Manager/Reachable.antt =====
-- The managers of jetsocket/manager.py that the program's calls lead to.
use jetsocket.Prelude.{
  ℕ, refl, Bool, true, false, not, ◌||◌, ◌&&◌, Option, none, some, List, [], ◌∷◌, Eq, if_either,
}
use jetsocket.Exceptions.{timeout_error, connection_error, Result, ok, err}
use jetsocket.State.{connected, reconnecting, backing_off, same_state, can_send, one_of}
use jetsocket.Float.{Float}
use jetsocket.Backoff.Defs.{BackoffConfig}
use jetsocket.Buffer.Defs as Buffer
use jetsocket.Buffer.Defs.{BufferConfig, ReplayConfig}
use jetsocket.Ring.Defs as Ring
use jetsocket.Stats.Defs as Stats
use jetsocket.Events.Defs.{Event}
use jetsocket.Manager.Defs.{Manager, Run, Now, init, emit, record_error, close}
use jetsocket.Manager.Send.{send}
use jetsocket.Manager.Connect.{Pause, Try, connect}
use jetsocket.Manager.Loop.{
  Arrival, frame, lost, broken, cancelled, arrive, receive_frame, receive_frames, message_loop,
  Received, get_message, recv, anext, is_none_queued,
}
use jetsocket.Manager.Timers.{pinged, send_ping, handle_heartbeat_timeout, connection_age_timer}
use jetsocket.Manager.Consistent.{
  Agrees, IsConsistent, total_dropped, emit_neutral, close-IsConsistent,
}
use jetsocket.Manager.Messages.{send-IsConsistent, receive_frame-IsConsistent}
use jetsocket.Manager.Cycle.{KeepsConsistent, connect-keeps, handle_disconnect-keeps}

-- A call: by the user, by a timer, or the message loop with all that arrives for it.
pub data Call (f : Float) (D T : Type 0) : Type 0 where
  connects : List (Try f D T) → Call f D T
  closes : ℕ → Call f D T
  sends : Now f D → Result ℕ → Call f D T
  receives iterates : Call f D T
  listens : List (Arrival f D T) → Call f D T
  pings : Result (Unit {0}) → Call f D T
  times_out ages : Now f D → Pause f → List (Try f D T) → Call f D T

module _ {f : Float} (D : Type 0) {T S : Type 0} where
  init-IsConsistent :
      (reconnect : Bool) (backoff : BackoffConfig f) (heartbeat max_age : Bool)
      (buffer : Option BufferConfig) (replay : Option (ReplayConfig T S))
      → IsConsistent {D = D} (init reconnect backoff heartbeat max_age buffer replay)
  unfolding init Stats.init Buffer.init Ring.init
  init-IsConsistent reconnect backoff heartbeat max_age none replay = record {
    state_of_log = refl;
    state_of_stats = refl;
    reconnects = refl;
    receipts = refl;
    reports = refl;
    drops = refl;
  }
  init-IsConsistent reconnect backoff heartbeat max_age (some c) replay = record {
    state_of_log = refl;
    state_of_stats = refl;
    reconnects = refl;
    receipts = refl;
    reports = refl;
    drops = refl;
  }

module _ {f : Float} {D T S : Type 0} ⦃e : Eq S⦄ where
  -- The manager after a call.
  unfoldable pub perform : Call f D T → Manager f D T S → Manager f D T S
  perform (connects ts) m = (connect ts m).1
  perform (closes code) m = close code m
  perform (sends now written) m = (send now written m).1
  perform receives m = (recv m).1
  perform iterates m = (anext m).1
  perform (listens arrivals) m = (message_loop arrivals m).1
  perform (pings written) m = (send_ping written m).1
  perform (times_out now p ts) m = (handle_heartbeat_timeout now p ts m).1
  perform (ages now p ts) m = (connection_age_timer now p ts m).1

  pub data Reachable : Manager f D T S → Type 0 where
    start :
        (reconnect : Bool) (backoff : BackoffConfig f) (heartbeat max_age : Bool)
        (buffer : Option BufferConfig) (replay : Option (ReplayConfig T S))
        → Reachable (init reconnect backoff heartbeat max_age buffer replay)
    call : {m : Manager f D T S} (c : Call f D T) → Reachable m → Reachable (perform c m)

  arrive-keeps :
      (again : Manager f D T S → Run f D T S)
      → KeepsConsistent again
      → (a : Arrival f D T) → KeepsConsistent (arrive again a)
  unfolding arrive Stats.record_error
  arrive-keeps again k (frame i) m h = k (receive_frame i m) (receive_frame-IsConsistent i m h)
  arrive-keeps again k (lost now p ts) m h =
      handle_disconnect-keeps 1006 false now p ts
        (record_error (record m { last_error = some connection_error })) h
  arrive-keeps again k (broken x now p ts) m h =
      handle_disconnect-keeps 1011 false now p ts
        (emit (Event.error x true) (record_error (record m { last_error = some x })))
        (emit_neutral (Event.error x true) refl h)
  arrive-keeps again k (cancelled code) m h = close-IsConsistent code m h

  receive_frames-keeps :
      (arrivals : List (Arrival f D T)) → KeepsConsistent {S = S} (receive_frames arrivals)
  unfolding receive_frames
  receive_frames-keeps [] m h =
      if_either (λ (r : Run f D T S). IsConsistent r.1) (m.running && same_state m.state connected)
        (λ _. h) (λ _. h)
  receive_frames-keeps (a ∷ arrivals) m h =
      if_either (λ (r : Run f D T S). IsConsistent r.1) (m.running && same_state m.state connected)
        (λ _. arrive-keeps (receive_frames arrivals) (receive_frames-keeps arrivals) a m h) (λ _. h)

  get_message-IsConsistent :
      (queue : List (Option T)) (m : Manager f D T S)
      → IsConsistent m
      → IsConsistent (get_message queue m).1
  unfolding get_message
  get_message-IsConsistent [] m h = h
  get_message-IsConsistent (x ∷ xs) m h = h

  perform-IsConsistent :
      (c : Call f D T) (m : Manager f D T S) → IsConsistent m → IsConsistent (perform c m)
  unfolding perform recv anext message_loop send_ping pinged handle_heartbeat_timeout
      connection_age_timer
  perform-IsConsistent (connects ts) m h = connect-keeps ts m h
  perform-IsConsistent (closes code) m h = close-IsConsistent code m h
  perform-IsConsistent (sends now written) m h = send-IsConsistent now written m h
  perform-IsConsistent receives m h =
      if_either (λ (r : Received T × Manager f D T S). IsConsistent r.1)
        (one_of m.state (connected ∷ reconnecting ∷ backing_off ∷ []))
        (λ _. get_message-IsConsistent m.message_queue m h)
        (λ _.
          if_either (λ (r : Received T × Manager f D T S). IsConsistent r.1)
            (is_none_queued m.message_queue) (λ _. h)
            (λ _. get_message-IsConsistent m.message_queue m h))
  perform-IsConsistent iterates m h =
      if_either (λ (r : Received T × Manager f D T S). IsConsistent r.1)
        (not m.running && is_none_queued m.message_queue) (λ _. h)
        (λ _. get_message-IsConsistent m.message_queue m h)
  perform-IsConsistent (listens arrivals) m h =
      if_either (λ (r : Run f D T S). IsConsistent r.1) m.transport
        (λ _. receive_frames-keeps arrivals m h) (λ _. h)
  perform-IsConsistent (pings (ok _)) m h =
      if_either (λ (r : Run f D T S). IsConsistent r.1) (not m.transport || not (can_send m.state))
        (λ _. h) (λ _. emit_neutral Event.ping refl h)
  perform-IsConsistent (pings (err x)) m h =
      if_either (λ (r : Run f D T S). IsConsistent r.1) (not m.transport || not (can_send m.state))
        (λ _. h) (λ _. h)
  perform-IsConsistent (times_out now p ts) m h =
      handle_disconnect-keeps 1006 false now p ts (emit (Event.error timeout_error true) m)
        (emit_neutral (Event.error timeout_error true) refl h)
  perform-IsConsistent (ages now p ts) m h =
      if_either (λ (r : Run f D T S). IsConsistent r.1) m.has_max_age
        (λ _.
          if_either (λ (r : Run f D T S). IsConsistent r.1) (same_state m.state connected)
            (λ _.
              handle_disconnect-keeps 1000 true now p ts (emit (Event.closing 1000) m)
                (emit_neutral (Event.closing 1000) refl h))
            (λ _. h))
        (λ _. h)

  -- In a manager that any calls have led to from a new one, the changes of state in the log lead
  -- from IDLE to the state, one after another and each to another state; the statistics show that
  -- state, and count the reconnections and the messages in the log; and the dropped messages in the
  -- reports of overflow add up to those that the buffer has counted.
  pub log_agrees :
      {m : Manager f D T S}
      → Reachable m
      → Agrees m.log m.state m.stats.state m.stats.reconnect_count m.stats.messages_received
          m.last_dropped_count
          (total_dropped m.buffer)
  log_agrees (start reconnect backoff heartbeat max_age buffer replay) =
      init-IsConsistent D reconnect backoff heartbeat max_age buffer replay
  log_agrees (call {m} c r) = perform-IsConsistent c m (log_agrees r)
