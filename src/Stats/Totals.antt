-- ===== src/Stats/Totals.antt =====
-- What a snapshot of jetsocket/stats.py shows after any calls.
use jetsocket.Prelude.{ℕ, ◌+◌, ◌≡◌, refl, Option, List, [], ◌∷◌, arith}
use jetsocket.State.{ConnectionState}
use jetsocket.Float.{Float}
use jetsocket.Stats.Defs.{
  Stats, init, set_state, mark_connected, mark_disconnected, mark_reconnected, record_message_sent,
  record_message_received, record_error, update_latency, reset, snapshot,
}

module _ (f : Float) (D : Type 0) where
  -- The calls that change the statistics; `mark_reconnected` and the like carry the time.
  pub data Call : Type 0 where
    states : ConnectionState → Call
    connects : f.F → Call
    disconnects : Call
    reconnects : f.F → D → Call
    sends : D → ℕ → Call
    receives : D → ℕ → Call
    fails : Call
    measures : f.F → Option f.F → Call
    resets : Call

  unfoldable pub apply : Stats f D → Call → Stats f D
  apply s (states state) = set_state f D state s
  apply s (connects now) = mark_connected f D now s
  apply s disconnects = mark_disconnected f D s
  apply s (reconnects now date) = mark_reconnected f D now date s
  apply s (sends date n) = record_message_sent f D date n s
  apply s (receives date n) = record_message_received f D date n s
  apply s fails = record_error f D s
  apply s (measures latency avg) = update_latency f D latency avg s
  apply s resets = reset f D s

  -- The calls of a run, the last one first.
  unfoldable pub after : List Call → Stats f D
  after [] = init f D
  after (c ∷ cs) = apply (after cs) c

  -- A count over the calls since the last reset.
  abbrev pub total : (Call → ℕ) → List Call → ℕ
  total n [] = 0
  total n (resets ∷ cs) = 0
  total n (states state ∷ cs) = n (states state) + total n cs
  total n (connects now ∷ cs) = n (connects now) + total n cs
  total n (disconnects ∷ cs) = n disconnects + total n cs
  total n (reconnects now date ∷ cs) = n (reconnects now date) + total n cs
  total n (sends date m ∷ cs) = n (sends date m) + total n cs
  total n (receives date m ∷ cs) = n (receives date m) + total n cs
  total n (fails ∷ cs) = n fails + total n cs
  total n (measures latency avg ∷ cs) = n (measures latency avg) + total n cs

  abbrev pub a_send : Call → ℕ
  a_send (sends date n) = 1
  a_send _ = 0

  abbrev pub sent_bytes : Call → ℕ
  sent_bytes (sends date n) = n
  sent_bytes _ = 0

  abbrev pub a_receipt : Call → ℕ
  a_receipt (receives date n) = 1
  a_receipt _ = 0

  abbrev pub received_bytes : Call → ℕ
  received_bytes (receives date n) = n
  received_bytes _ = 0

  abbrev pub a_reconnect : Call → ℕ
  a_reconnect (reconnects now date) = 1
  a_reconnect _ = 0

  abbrev pub a_failure : Call → ℕ
  a_failure fails = 1
  a_failure _ = 0

  -- After any calls a snapshot counts the messages and bytes each way, the reconnections and the
  -- errors since the last reset.
  pub snapshot_totals :
      (cs : List Call) (now : f.F)
      → let s = snapshot f D now (after cs) in
        (s.messages_sent ≡ total a_send cs)
        × (s.bytes_sent ≡ total sent_bytes cs)
        × (s.messages_received ≡ total a_receipt cs)
        × (s.bytes_received ≡ total received_bytes cs)
        × (s.reconnect_count ≡ total a_reconnect cs)
        × (s.errors ≡ total a_failure cs)
  unfolding snapshot after apply init set_state mark_connected mark_disconnected mark_reconnected
      record_message_sent record_message_received record_error update_latency reset
  snapshot_totals [] now = (refl, refl, refl, refl, refl, refl)
  snapshot_totals (resets ∷ cs) now = (refl, refl, refl, refl, refl, refl)
  snapshot_totals (_ ∷ cs) now = omega (arith, snapshot_totals cs now)
