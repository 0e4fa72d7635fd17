-- ===== src/Manager/Tests.antt =====
-- The theorems about the manager at concrete inputs, with whole numbers for the floats.
use jetsocket.Prelude.{
  ℕ, ◌<◌, ◌≡◌, ◌≢◌, refl, Bool, true, false, Option, none, some, List, [], ◌∷◌, map, nat_eq, ◌==◌,
  if◌then◌else◌, arith,
}
use jetsocket.Exceptions.{
  Error, connection_error, value_error, invalid_state_error, Result, ok, err,
}
use jetsocket.State.{connecting, connected, closed}
use jetsocket.Float.Whole.{whole}
use jetsocket.Backoff.Defs.{BackoffConfig, Backoff, exhausted}
use jetsocket.Ring.Defs.{RingBuffer, drop_oldest}
use jetsocket.Ring.Queue.{Queue}
use jetsocket.Ring.Represents.{Represents}
use jetsocket.Buffer.Defs as Buffer
use jetsocket.Buffer.Defs.{BufferConfig, ReplayConfig, MessageBuffer, sequence_id, full_buffer}
use jetsocket.Events.Defs.{Event}
use jetsocket.Manager.Defs.{raised, waiting, Manager, Now, init, emit}
use jetsocket.Manager.Send.{send, replay_on_reconnect}
use jetsocket.Manager.Connect.{
  Pause, Try, connect_internal, connect, schedule_reconnect, handle_disconnect,
}
use jetsocket.Manager.Loop.{Incoming, Arrival, frame, message_loop, blocked, anext}
use jetsocket.Manager.Stop.{uncaught_wedges, iteration_hangs}
use jetsocket.Manager.Wait.{EndsStopped, close_cancels_retry}
use jetsocket.Manager.Consistent.{Agrees, total_dropped}
use jetsocket.Manager.Queue.{Delivers, receive_order}
use jetsocket.Manager.Replay.{replay_full_buffer, replay_of_empty}
use jetsocket.Manager.Reachable.{Call, perform, Reachable, log_agrees}

abbrev clock : Now whole ℕ
clock = record { time = 5; date = 7 }

abbrev pause : Option ℕ → Pause whole
pause closes = record { uniform = λ a b. b; closes = closes }

abbrev attempt : Option Error → Try whole ℕ ℕ
attempt failure = record {
  now = clock;
  failure = failure;
  written = λ x. ok x;
  replayed = ok tt;
  pause = pause none;
}

abbrev backoff : BackoffConfig whole
backoff = record {
  base = 1;
  multiplier = 2;
  cap = 60;
  jitter = true;
  max_attempts = 2;
  reset_after = 60;
}

abbrev strategy : Backoff whole
strategy = record { config = backoff; attempt = 0; last_success = none }

abbrev buffer_config : BufferConfig
buffer_config = record {
  capacity = 2;
  overflow_policy = drop_oldest;
  enable_dedup = true;
  dedup_window = 3;
}

abbrev ring : RingBuffer ℕ ℕ
ring = record {
  buffer = some (some 4, some 1) ∷ some (some 6, some 2) ∷ [];
  head = 0;
  tail = 0;
  len = 2;
  capacity = 2;
  policy = drop_oldest;
  total_dropped = 0;
}

abbrev held : Queue ℕ ℕ
held = record { entries = (some 4, some 1) ∷ (some 6, some 2) ∷ []; dropped = 0 }

ring-Represents : Represents ring held
ring-Represents = record {
  positive = omega arith;
  size = refl;
  head_in = omega arith;
  len_in = omega arith;
  tail_at = refl;
  cells = refl;
  counts = refl;
}

abbrev full : MessageBuffer ℕ ℕ
full = record {
  config = buffer_config;
  buffer = ring;
  last_sequence_id = some 2;
  seen_sequences = 1 ∷ 2 ∷ [];
}

-- The same after `pop` and `pop`.
abbrev emptied : MessageBuffer ℕ ℕ
emptied = record full { buffer = record ring { buffer = none ∷ none ∷ []; len = 0 } }

abbrev by_buffer : ReplayConfig ℕ ℕ
by_buffer = record { mode = full_buffer; sequence_extractor = none; on_replay = false }

abbrev by_sequence : ReplayConfig ℕ ℕ
by_sequence = record { mode = sequence_id; sequence_extractor = none; on_replay = true }

abbrev online : Manager whole ℕ ℕ ℕ
online = record {
  reconnect_enabled = true;
  has_heartbeat = true;
  has_max_age = false;
  replay_config = some by_buffer;
  state = connected;
  transport = true;
  backoff = strategy;
  heartbeat = true;
  stats = record {
    state = some connected;
    messages_sent = 1;
    messages_received = 0;
    bytes_sent = 3;
    bytes_received = 0;
    reconnect_count = 0;
    errors = 0;
    connected_at = some 1;
    first_connect_at = some 1;
    last_reconnect_at = none;
    last_message_at = none;
    latency_ms = none;
    latency_avg_ms = none;
  };
  buffer = some full;
  message_task = true;
  age_task = false;
  message_queue = [];
  running = true;
  user_closed = false;
  disconnect_time = none;
  attempt = 1;
  last_error = none;
  last_dropped_count = 0;
  log = [];
}

uncaught_wedges_example :
    let r = connect_internal (attempt (some value_error) ∷ []) online in
    (r.0 ≡ raised value_error)
    × (r.1.state ≡ connecting)
    × (connect [] r.1 ≡ (raised invalid_state_error, r.1))
    × (send clock (ok 3) r.1 ≡ (err invalid_state_error, r.1))
uncaught_wedges_example =
    uncaught_wedges (attempt (some value_error)) [] [] value_error clock (ok 3) online refl refl

iteration_hangs_example :
    let m = (handle_disconnect 4401 false clock (pause none) [] online).1 in
    (m.state ≡ closed) × (anext m ≡ (blocked, m))
iteration_hangs_example = iteration_hangs 4401 false clock (pause none) [] online refl refl refl

abbrev refused : Try whole ℕ ℕ
refused = attempt (some connection_error)

in_range : (k : ℕ) → k < 2 → whole.pow 2 k ≢ none
in_range k lt e = ground arith

strategy_going : exhausted whole strategy ≡ false
unfolding exhausted
strategy_going = refl

close_cancels_retry_example :
    EndsStopped
      (schedule_reconnect (connect_internal (attempt none ∷ [])) (pause (some 1000)) online)
close_cancels_retry_example =
    close_cancels_retry (connect_internal (attempt none ∷ [])) (pause (some 1000)) 1000 online
      strategy_going (in_range 0 (omega arith)) refl

abbrev incoming : ℕ → Result (Option ℕ) → Bool → Incoming whole ℕ ℕ
incoming opcode parsed pong = record {
  opcode = opcode;
  payload_len = 2;
  parsed = parsed;
  is_app_pong = pong;
  now = clock;
}

-- A message, a pong of the protocol, one of the application, a payload that cannot be parsed, and
-- a JSON null.
abbrev frames : List (Incoming whole ℕ ℕ)
frames =
    incoming 1 (ok (some 8)) false
    ∷ incoming 10 (ok (some 1)) false
    ∷ incoming 1 (ok (some 2)) true
    ∷ incoming 1 (err value_error) false
    ∷ incoming 1 (ok none) false
    ∷ []

receive_order_example :
    let r = message_loop (map frame frames) online in
    (r.0 ≡ waiting) × Delivers (some 8 ∷ none ∷ []) online r.1
receive_order_example = receive_order frames online refl refl refl

-- The connection breaks after the first of the two messages.
abbrev one_written : ℕ → Result ℕ
one_written x = if x == 4 then ok 10 else err connection_error

replay_full_buffer_example :
    let m = replay_on_reconnect clock one_written (ok tt) online in
    (m.stats.messages_sent ≡ 2)
    × (m.stats.bytes_sent ≡ 13)
    × (m.buffer ≡ some (Buffer.drain full).1)
    × Represents (Buffer.drain full).1.buffer (record held { entries = [] })
replay_full_buffer_example =
    replay_full_buffer clock one_written (ok tt) by_buffer full held online refl refl refl
      ring-Represents refl refl

abbrev by_id : Manager whole ℕ ℕ ℕ
by_id = record online { replay_config = some by_sequence; buffer = some emptied }

replay_of_empty_example :
    replay_on_reconnect clock one_written (ok tt) by_id
    ≡ emit
        (Event.replay_completed sequence_id 0)
        (emit (Event.replay_started sequence_id none 0) by_id)
replay_of_empty_example =
    replay_of_empty clock one_written (ok tt) by_sequence emptied by_id refl refl refl refl

-- A run: the first attempt fails, the second connects, three messages arrive for a buffer of two,
-- and the user closes.
abbrev calls : Call whole ℕ ℕ
calls = Call.connects (refused ∷ attempt none ∷ [])

abbrev arrivals : List (Arrival whole ℕ ℕ)
arrivals = map frame (
    incoming 1 (ok (some 8)) false
    ∷ incoming 1 (ok (some 9)) false
    ∷ incoming 1 (ok (some 3)) false
    ∷ [])

abbrev new : Manager whole ℕ ℕ ℕ
new = init true backoff false false (some buffer_config) (some by_buffer)

abbrev ended : Manager whole ℕ ℕ ℕ
ended = perform (Call.closes 1000) (perform (Call.listens arrivals) (perform calls new))

run_reaches : Reachable ended
run_reaches = Reachable.call (Call.closes 1000) (
    Reachable.call (Call.listens arrivals) (
      Reachable.call calls
        (Reachable.start true backoff false false (some buffer_config) (some by_buffer))))

log_agrees_example :
    Agrees ended.log ended.state ended.stats.state ended.stats.reconnect_count
      ended.stats.messages_received ended.last_dropped_count
      (total_dropped ended.buffer)
log_agrees_example = log_agrees run_reaches
