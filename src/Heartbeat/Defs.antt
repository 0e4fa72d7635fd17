-- ===== src/Heartbeat/Defs.antt =====
-- `HeartbeatManager` of jetsocket/heartbeat.py. `P` is the type of payloads and `M` that of
-- messages; a reading of the clock is an argument. The background task is cut at its waits.
use jetsocket.Prelude.{
  Bool, true, false, Option, none, some, List, [], ◌∷◌, ◌++◌, length, drop, ◌-◌, Eq, if◌then◌else◌,
}
use jetsocket.Exceptions.{Result, ok, err}
use jetsocket.Float.{Float}

-- `pong_event` is there while the task runs: whether it is set.
pub record Heartbeat (f : Float) (P : Type 0) : Type 0 where
  pub payload : P
  pub running : Bool
  pub last_ping_time : Option f.F
  pub last_latency : Option f.F
  pub latency_samples : List f.F
  pub pong_event : Option Bool
  pub pending_payload : Option P

-- `deque(maxlen=10)`: an append to a full one drops the oldest.
abbrev pub append_sample : {A : Type 0} → List A → A → List A
append_sample samples a = drop (length (samples ++ (a ∷ [])) - 10) (samples ++ (a ∷ []))

-- `event.set()` and `event.clear()`, of an event that is there
abbrev pub signal : Bool → Option Bool → Option Bool
signal b none = none
signal b (some is_set) = some b

abbrev pub is_signalled : Option Bool → Bool
is_signalled none = false
is_signalled (some is_set) = is_set

-- How a step of the loop ends: with the next wait, with the call of `on_timeout`, or for good.
pub data Next : Type 0 where
  waits_for_pong waits_interval times_out ends : Next

module _ {f : Float} {P : Type 0} where
  -- `__init__`
  unfoldable pub init : P → Heartbeat f P
  init payload = record {
    payload = payload;
    running = false;
    last_ping_time = none;
    last_latency = none;
    latency_samples = [];
    pong_event = none;
    pending_payload = none;
  }

  unfoldable pub start : Heartbeat f P → Heartbeat f P
  start h = if h.running then h else record h { running = true; pong_event = some false }

  unfoldable pub stop : Heartbeat f P → Heartbeat f P
  stop h = record h { running = false; pong_event = none; pending_payload = none }

  unfoldable pub reset : Heartbeat f P → Heartbeat f P
  reset h = record h {
    last_ping_time = none;
    last_latency = none;
    latency_samples = [];
    pending_payload = none;
  }

  -- The latency of the ping that was sent at a time.
  unfoldable pub measure : f.F → f.F → Heartbeat f P → f.F × Heartbeat f P
  measure now sent h =
      let latency = f.thousandfold (f.sub now sent) in
      (
        latency,
        record h {
          last_latency = some latency;
          latency_samples = append_sample h.latency_samples latency;
          last_ping_time = none;
          pong_event = signal true h.pong_event;
        },
      )

  unfoldable pub matched : f.F → Option f.F → Heartbeat f P → Heartbeat f P
  matched now none h = h
  matched now (some sent) h = (measure now sent h).1

  -- `on_application_message`, by what the matcher says, where there is one
  unfoldable pub on_application_message : f.F → Option Bool → Heartbeat f P → Bool × Heartbeat f P
  on_application_message now none h = (false, h)
  on_application_message now (some is_pong) h =
      if is_pong then (true, matched now h.last_ping_time h) else (false, h)

  -- The loop from the end of its sleep to the wait for a pong: `sent` is what `send_ping` does, and
  -- an exception is suppressed, with the loop beginning again.
  unfoldable pub ping : f.F → Result (Unit {0}) → Heartbeat f P → Next × Heartbeat f P
  ping now sent h =
      let h1 = record h {
        pong_event = signal false h.pong_event;
        pending_payload = some h.payload;
        last_ping_time = some now;
      } in
      if h.running
      then elim sent [ ok _ ↦ (waits_for_pong, h1) | err e ↦ (waits_interval, h1) ]
      else (ends, h)

  -- The end of the wait for a pong, by the event or by the timeout.
  unfoldable pub finish : Heartbeat f P → Next
  finish h =
      if is_signalled h.pong_event then waits_interval else if h.running then times_out else ends

module _ {P : Type 0} ⦃e : Eq P⦄ where
  abbrev pub fits : Option P → P → Bool
  fits none payload = true
  fits (some pending) payload = e.beq payload pending

module _ {f : Float} {P : Type 0} ⦃e : Eq P⦄ where
  unfoldable pub pong_for : f.F → P → Option f.F → Heartbeat f P → Option f.F × Heartbeat f P
  pong_for now payload none h = (none, h)
  pong_for now payload (some sent) h =
      if fits h.pending_payload payload
      then (some (measure now sent h).0, record (measure now sent h).1 { pending_payload = none })
      else (none, h)

  unfoldable pub on_pong : f.F → P → Heartbeat f P → Option f.F × Heartbeat f P
  on_pong now payload h = pong_for now payload h.last_ping_time h
