-- ===== src/Stats/Defs.antt =====
-- `_MutableStats` and `ConnectionStats` of jetsocket/stats.py. The readings of the monotonic clock
-- and of the calendar, of type `D`, are arguments of the methods that take them.
use jetsocket.Prelude.{ℕ, ◌+◌, Option, none, some}
use jetsocket.State.{ConnectionState, idle}
use jetsocket.Float.{Float}

module _ (f : Float) (D : Type 0) where
  -- `_MutableStats`
  pub record Stats : Type 0 where
    pub state : Option ConnectionState
    pub messages_sent : ℕ
    pub messages_received : ℕ
    pub bytes_sent : ℕ
    pub bytes_received : ℕ
    pub reconnect_count : ℕ
    pub errors : ℕ
    pub connected_at : Option f.F
    pub first_connect_at : Option f.F
    pub last_reconnect_at : Option D
    pub last_message_at : Option D
    pub latency_ms : Option f.F
    pub latency_avg_ms : Option f.F

  unfoldable pub init : Stats
  init = record {
    state = none;
    messages_sent = 0;
    messages_received = 0;
    bytes_sent = 0;
    bytes_received = 0;
    reconnect_count = 0;
    errors = 0;
    connected_at = none;
    first_connect_at = none;
    last_reconnect_at = none;
    last_message_at = none;
    latency_ms = none;
    latency_avg_ms = none;
  }

  unfoldable pub state_of : Stats → ConnectionState
  state_of s = elim s.state [ none ↦ idle | some state ↦ state ]

  unfoldable pub set_state : ConnectionState → Stats → Stats
  set_state state s = record s { state = some state }

  -- `if self._first_connect_at is None`
  abbrev pub or_now : f.F → Option f.F → Option f.F
  or_now now none = some now
  or_now now (some t) = some t

  unfoldable pub mark_connected : f.F → Stats → Stats
  mark_connected now s = record s {
    connected_at = some now;
    first_connect_at = or_now now s.first_connect_at;
  }

  unfoldable pub mark_disconnected : Stats → Stats
  mark_disconnected s = record s { connected_at = none }

  unfoldable pub mark_reconnected : f.F → D → Stats → Stats
  unfolding mark_connected
  mark_reconnected now date s =
      mark_connected now
        (record s { reconnect_count = s.reconnect_count + 1; last_reconnect_at = some date })

  unfoldable pub record_message_sent : D → ℕ → Stats → Stats
  record_message_sent date byte_count s = record s {
    messages_sent = s.messages_sent + 1;
    bytes_sent = s.bytes_sent + byte_count;
    last_message_at = some date;
  }

  unfoldable pub record_message_received : D → ℕ → Stats → Stats
  record_message_received date byte_count s = record s {
    messages_received = s.messages_received + 1;
    bytes_received = s.bytes_received + byte_count;
    last_message_at = some date;
  }

  unfoldable pub record_error : Stats → Stats
  record_error s = record s { errors = s.errors + 1 }

  unfoldable pub update_latency : f.F → Option f.F → Stats → Stats
  update_latency latency_ms avg_ms s = record s {
    latency_ms = some latency_ms;
    latency_avg_ms = avg_ms;
  }

  -- `reset`, which leaves the state as it is.
  unfoldable pub reset : Stats → Stats
  unfolding init
  reset s = record init { state = s.state }

  -- `ConnectionStats`
  pub record Snapshot : Type 0 where
    pub state : ConnectionState
    pub uptime_seconds : f.F
    pub messages_sent : ℕ
    pub messages_received : ℕ
    pub bytes_sent : ℕ
    pub bytes_received : ℕ
    pub reconnect_count : ℕ
    pub last_reconnect_at : Option D
    pub latency_ms : Option f.F
    pub latency_avg_ms : Option f.F
    pub last_message_at : Option D
    pub connection_age_seconds : f.F
    pub errors : ℕ

  -- `now - t if t is not None else 0.0`
  abbrev pub since : f.F → Option f.F → f.F
  since now none = f.zero
  since now (some t) = f.sub now t

  unfoldable pub snapshot : f.F → Stats → Snapshot
  unfolding state_of
  snapshot now s = record {
    state = state_of s;
    uptime_seconds = since now s.connected_at;
    messages_sent = s.messages_sent;
    messages_received = s.messages_received;
    bytes_sent = s.bytes_sent;
    bytes_received = s.bytes_received;
    reconnect_count = s.reconnect_count;
    last_reconnect_at = s.last_reconnect_at;
    latency_ms = s.latency_ms;
    latency_avg_ms = s.latency_avg_ms;
    last_message_at = s.last_message_at;
    connection_age_seconds = since now s.first_connect_at;
    errors = s.errors;
  }
