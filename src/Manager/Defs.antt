-- ===== src/Manager/Defs.antt =====
-- The object `WebSocket` of jetsocket/manager.py, and the methods that the others call. What is
-- outside the program comes in as arguments: the clock, the server's answers and the serializer's.
-- Handlers of events do not call back into the object: an event is noted in `log`, last one first.
use jetsocket.Prelude.{
  ℕ, Bool, true, false, ◌||◌, Option, none, some, List, [], ◌∷◌, ◌==◌, if◌then◌else◌,
}
use jetsocket.Exceptions.{
  Error, connection_error, handshake_error, timeout_error, value_error, type_error,
}
use jetsocket.State.{
  ConnectionState, idle, connected, disconnecting, closed, same_state, is_terminal,
}
use jetsocket.Float.{Float}
use jetsocket.Backoff.Defs.{Backoff, BackoffConfig}
use jetsocket.Backoff.Defs as Backoff
use jetsocket.Buffer.Defs.{MessageBuffer, BufferConfig, ReplayConfig}
use jetsocket.Buffer.Defs as Buffer
use jetsocket.Stats.Defs.{Stats}
use jetsocket.Stats.Defs as Stats
use jetsocket.Events.Defs.{Event}

-- How a coroutine stands: it has returned, it has raised, or it still waits for the server.
pub data Outcome : Type 0 where
  returned : Outcome
  raised : Error → Outcome
  waiting : Outcome

-- `_FATAL_HTTP_CODES` and `_FATAL_WS_CODES`
abbrev pub is_fatal_http : ℕ → Bool
is_fatal_http c = c == 401 || c == 403 || c == 404 || c == 410

abbrev pub is_fatal_code : ℕ → Bool
is_fatal_code c = c == 1008 || c == 4401 || c == 4403

-- `_is_fatal_error`
abbrev pub is_fatal_error : Error → Bool
is_fatal_error value_error = true
is_fatal_error type_error = true
is_fatal_error (handshake_error (some status)) = is_fatal_http status
is_fatal_error _ = false

-- `except (ConnectionError, HandshakeError, TimeoutError)`
abbrev pub is_caught : Error → Bool
is_caught connection_error = true
is_caught (handshake_error status) = true
is_caught timeout_error = true
is_caught _ = false

pub record Manager (f : Float) (D T S : Type 0) : Type 0 where
  pub reconnect_enabled : Bool
  pub has_heartbeat : Bool
  pub has_max_age : Bool
  pub replay_config : Option (ReplayConfig T S)
  pub state : ConnectionState
  pub transport : Bool
  pub backoff : Backoff f
  pub heartbeat : Bool
  pub stats : Stats f D
  pub buffer : Option (MessageBuffer T S)
  pub message_task : Bool
  pub age_task : Bool
  pub message_queue : List (Option T)
  pub running : Bool
  pub user_closed : Bool
  pub disconnect_time : Option f.F
  pub attempt : ℕ
  pub last_error : Option Error
  pub last_dropped_count : ℕ
  pub log : List (Event f.F T S)

abbrev pub Run : Float → Type 0 → Type 0 → Type 0 → Type 0
Run f D T S = Outcome × Manager f D T S

-- The readings of the two clocks.
pub record Now (f : Float) (D : Type 0) : Type 0 where
  pub time : f.F
  pub date : D

module _ {T S : Type 0} where
  abbrev pub new_buffer : Option BufferConfig → Option (MessageBuffer T S)
  new_buffer none = none
  new_buffer (some config) = some (Buffer.init config)

module _ {f : Float} {D T S : Type 0} where
  -- `WebSocket.__init__`
  unfoldable pub init :
      Bool
      → BackoffConfig f
      → Bool
      → Bool
      → Option BufferConfig
      → Option (ReplayConfig T S)
      → Manager f D T S
  init reconnect backoff heartbeat max_age buffer replay = record {
    reconnect_enabled = reconnect;
    has_heartbeat = heartbeat;
    has_max_age = max_age;
    replay_config = replay;
    state = idle;
    transport = false;
    backoff = Backoff.init f backoff;
    heartbeat = false;
    stats = Stats.init f D;
    buffer = new_buffer buffer;
    message_task = false;
    age_task = false;
    message_queue = [];
    running = false;
    user_closed = false;
    disconnect_time = none;
    attempt = 0;
    last_error = none;
    last_dropped_count = 0;
    log = [];
  }

  -- `_emit`
  abbrev pub emit : Event f.F T S → Manager f D T S → Manager f D T S
  emit event m = record m { log = event ∷ m.log }

  -- `_set_state`
  unfoldable pub set_state : ConnectionState → Manager f D T S → Manager f D T S
  set_state new m =
      if same_state new m.state
      then m
      else emit (Event.state_change m.state new)
          (record m { state = new; stats = Stats.set_state f D new m.stats })

  -- `self._stats.record_error()`
  abbrev pub record_error : Manager f D T S → Manager f D T S
  record_error m = record m { stats = Stats.record_error f D m.stats }

  -- `close`, from `# Stop heartbeat` on
  unfoldable pub tear_down : ℕ → Manager f D T S → Manager f D T S
  tear_down code m = emit (Event.closed code false) (
      set_state closed (record m {
        heartbeat = false;
        age_task = false;
        transport = false;
        message_task = false;
        stats = Stats.mark_disconnected f D m.stats;
      }))

  -- The start of `close`, for an open connection.
  unfoldable pub begin_close : ℕ → Manager f D T S → Manager f D T S
  begin_close code m =
      if same_state m.state connected
      then set_state disconnecting (emit (Event.closing code) m)
      else m

  unfoldable pub close : ℕ → Manager f D T S → Manager f D T S
  close code m =
      let m' = record m { user_closed = true; running = false } in
      if is_terminal m.state then m' else tear_down code (begin_close code m')
