-- ===== src/Heartbeat/Tests.antt =====
-- The theorems about the heartbeat at concrete inputs, with whole numbers for the floats.
use jetsocket.Prelude.{ℕ, ◌≡◌, refl, true, false, none, some, [], ◌∷◌, nat_eq}
use jetsocket.Exceptions.{ok}
use jetsocket.Float.Whole.{whole}
use jetsocket.Heartbeat.Defs.{Heartbeat, waits_for_pong, waits_interval, times_out, ping, finish}
use jetsocket.Heartbeat.Cycle.{pong, application, arrivals, cycle_times_out}

abbrev running : Heartbeat whole ℕ
running = record {
  payload = 7;
  running = true;
  last_ping_time = none;
  last_latency = none;
  latency_samples = [];
  pong_event = some true;
  pending_payload = none;
}

-- A pong to an older ping, of another payload, does not count, nor does a message that is no pong.
cycle_times_out_example :
    let r = ping 30 (ok tt) running in
    (r.0 ≡ waits_for_pong)
    × (finish (arrivals (pong 31 6 ∷ application 32 (some false) ∷ []) r.1) ≡ times_out)
cycle_times_out_example =
    cycle_times_out 30 (pong 31 6 ∷ application 32 (some false) ∷ []) running true refl refl

-- A message that is one does, with any payload out.
answered_by_message :
    finish (arrivals (application 32 (some true) ∷ []) (ping 30 (ok tt) running).1) ≡ waits_interval
answered_by_message =
    (cycle_times_out 30 (application 32 (some true) ∷ []) running true refl refl).1
