-- ===== src/Events/Defs.antt =====
-- The event classes of jetsocket/events.py, each with the fields that are more than text. The URI,
-- which is the same in every event of a connection, and messages for people are left out.
use jetsocket.Prelude.{ℕ, Bool, Option}
use jetsocket.Exceptions.{Error}
use jetsocket.State.{ConnectionState}
use jetsocket.Ring.Defs.{OverflowPolicy}
use jetsocket.Buffer.Defs.{ReplayMode}

-- `F` is the type of times, `T` that of messages and `S` that of sequence IDs.
pub data Event (F T S : Type 0) : Type 0 where
  -- attempt
  connecting : ℕ → Event F T S
  connected : Event F T S
  -- code, was_clean
  disconnected : ℕ → Bool → Event F T S
  -- attempt, delay, last_error
  reconnecting : ℕ → F → Option Error → Event F T S
  -- attempt, downtime_seconds
  reconnected : ℕ → F → Event F T S
  message : Option T → Event F T S
  -- opcode
  raw_message : ℕ → Event F T S
  -- error, fatal
  error : Error → Bool → Event F T S
  -- old_state, new_state
  state_change : ConnectionState → ConnectionState → Event F T S
  ping pong : Event F T S
  -- code
  closing : ℕ → Event F T S
  -- code, reconnecting
  closed : ℕ → Bool → Event F T S
  -- mode, last_sequence_id, message_count
  replay_started : ReplayMode → Option S → ℕ → Event F T S
  -- mode, replayed_count
  replay_completed : ReplayMode → ℕ → Event F T S
  -- capacity, dropped_count, policy
  buffer_overflow : ℕ → ℕ → OverflowPolicy → Event F T S
