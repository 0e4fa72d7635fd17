-- ===== src/Manager/Loop.antt =====
-- Receiving in jetsocket/manager.py: the message loop and the message queue.
use jetsocket.Prelude.{
  ℕ, Bool, true, false, not, ◌&&◌, Option, some, List, [], ◌∷◌, ◌++◌, Eq, ◌==◌, if◌then◌else◌,
}
use jetsocket.Exceptions.{Error, connection_error, invalid_state_error, Result, ok, err}
use jetsocket.State.{connected, reconnecting, backing_off, same_state, one_of}
use jetsocket.Float.{Float}
use jetsocket.Stats.Defs as Stats
use jetsocket.Events.Defs.{Event}
use jetsocket.Manager.Defs.{returned, waiting, Manager, Run, Now, emit, record_error, close}
use jetsocket.Manager.Send.{track_received_message}
use jetsocket.Manager.Connect.{Pause, Try, handle_disconnect}

-- A frame that the transport gives, with what the deserializer and the heartbeat's matcher of
-- application-level pongs make of its payload.
pub record Incoming (f : Float) (D T : Type 0) : Type 0 where
  pub opcode : ℕ
  pub payload_len : ℕ
  pub parsed : Result (Option T)
  pub is_app_pong : Bool
  pub now : Now f D

-- What the transport's `recv` gives the loop: a frame, ConnectionError, or another exception. After
-- an exception come the readings and the answers of the reconnection. The user's `close`, which
-- cancels the loop's task while it waits, stands in the same list.
pub data Arrival (f : Float) (D T : Type 0) : Type 0 where
  frame : Incoming f D T → Arrival f D T
  lost : Now f D → Pause f → List (Try f D T) → Arrival f D T
  broken : Error → Now f D → Pause f → List (Try f D T) → Arrival f D T
  cancelled : ℕ → Arrival f D T

-- What `recv` and `__anext__` give: a message, an exception, the end, or a wait for a message.
pub data Received (T : Type 0) : Type 0 where
  got : Option T → Received T
  failed_with : Error → Received T
  stopped : Received T
  blocked : Received T

module _ {f : Float} {D T S : Type 0} ⦃e : Eq S⦄ where
  -- The messages' part of the loop's body.
  unfoldable pub receive_message : Incoming f D T → Option T → Manager f D T S → Manager f D T S
  receive_message i message m =
      let m1 = emit (Event.message message) (track_received_message message m) in
      record m1 {
        message_queue = m1.message_queue ++ (message ∷ []);
        stats = Stats.record_message_received f D i.now.date i.payload_len m1.stats;
      }

  unfoldable pub receive_parsed :
      Incoming f D T → Result (Option T) → Manager f D T S → Manager f D T S
  receive_parsed i (ok message) m =
      if m.heartbeat && i.is_app_pong then m else receive_message i message m
  receive_parsed i (err x) m = emit (Event.error x false) (record_error m)

  -- The body of `_message_loop` for one frame; 10 is the opcode of a pong.
  unfoldable pub receive_frame : Incoming f D T → Manager f D T S → Manager f D T S
  receive_frame i m =
      if i.opcode == 10
      then emit Event.pong m
      else receive_parsed i i.parsed (emit (Event.raw_message i.opcode) m)

  unfoldable pub arrive :
      (Manager f D T S → Run f D T S) → Arrival f D T → Manager f D T S → Run f D T S
  arrive again (frame i) m = again (receive_frame i m)
  arrive again (lost now p ts) m =
      handle_disconnect 1006 false now p ts
        (record_error (record m { last_error = some connection_error }))
  arrive again (broken x now p ts) m =
      handle_disconnect 1011 false now p ts
        (emit (Event.error x true) (record_error (record m { last_error = some x })))
  arrive again (cancelled code) m = (returned, close code m)

  -- The loop of `_message_loop`.
  unfoldable pub receive_frames : List (Arrival f D T) → Manager f D T S → Run f D T S
  receive_frames [] m =
      if m.running && same_state m.state connected then (waiting, m) else (returned, m)
  receive_frames (a ∷ arrivals) m =
      let rest = arrive (receive_frames arrivals) a m in
      if m.running && same_state m.state connected then rest else (returned, m)

  -- `_message_loop`
  unfoldable pub message_loop : List (Arrival f D T) → Manager f D T S → Run f D T S
  message_loop arrivals m = if m.transport then receive_frames arrivals m else (returned, m)

module _ {T : Type 0} where
  -- `self._message_queue.empty()`
  abbrev pub is_none_queued : List (Option T) → Bool
  is_none_queued [] = true
  is_none_queued (x ∷ xs) = false

module _ {f : Float} {D T S : Type 0} where
  -- `await self._message_queue.get()`, which waits for ever where nothing comes.
  unfoldable pub get_message : List (Option T) → Manager f D T S → Received T × Manager f D T S
  get_message [] m = (blocked, m)
  get_message (x ∷ xs) m = (got x, record m { message_queue = xs })

  -- `recv`
  unfoldable pub recv : Manager f D T S → Received T × Manager f D T S
  recv m =
      if one_of m.state (connected ∷ reconnecting ∷ backing_off ∷ [])
      then get_message m.message_queue m
      else if is_none_queued m.message_queue
      then (failed_with invalid_state_error, m)
      else get_message m.message_queue m

  -- `__anext__`
  unfoldable pub anext : Manager f D T S → Received T × Manager f D T S
  anext m =
      if not m.running && is_none_queued m.message_queue
      then (stopped, m)
      else get_message m.message_queue m
