-- ===== src/Manager/Consistent.antt =====
-- The log of events of jetsocket/manager.py against the state, the statistics and the buffer.
use jetsocket.Prelude.{
  ℕ, ◌+◌, ◌≡◌, refl, ◌∙◌, Bool, true, false, not, ◌&&◌, Option, none, some, List, [], ◌∷◌,
  if_either, arith,
}
use jetsocket.State.{
  ConnectionState, idle, connected, disconnecting, closed, same_state, is_terminal,
}
use jetsocket.State.Same.{same_state_refl}
use jetsocket.Float.{Float}
use jetsocket.Buffer.Defs.{MessageBuffer}
use jetsocket.Stats.Defs as Stats
use jetsocket.Events.Defs.{Event, reconnected, message, state_change, buffer_overflow}
use jetsocket.Manager.Defs.{Manager, emit, set_state, begin_close, tear_down, close}

abbrev pub or_idle : Option ConnectionState → ConnectionState
or_idle none = idle
or_idle (some state) = state

module _ {F T S : Type 0} where
  -- The changes of state in the log, the last one first, lead from IDLE to a state, and each is to
  -- another state than the one before.
  abbrev pub leads_to : List (Event F T S) → ConnectionState → Bool
  leads_to [] now = same_state idle now
  leads_to (state_change old new ∷ log) now =
      same_state new now && (not (same_state new old) && leads_to log old)
  leads_to (_ ∷ log) now = leads_to log now

  -- Over a log: the reconnections, the messages, and the dropped messages that were reported.
  abbrev pub reconnections : List (Event F T S) → ℕ
  reconnections [] = 0
  reconnections (reconnected attempt downtime ∷ log) = reconnections log + 1
  reconnections (_ ∷ log) = reconnections log

  abbrev pub messages : List (Event F T S) → ℕ
  messages [] = 0
  messages (message data_ ∷ log) = messages log + 1
  messages (_ ∷ log) = messages log

  abbrev pub reported : List (Event F T S) → ℕ
  reported [] = 0
  reported (buffer_overflow capacity dropped_count policy ∷ log) = reported log + dropped_count
  reported (_ ∷ log) = reported log

  -- The events that none of these counts reads.
  abbrev pub is_neutral : Event F T S → Bool
  is_neutral (reconnected attempt downtime) = false
  is_neutral (message data_) = false
  is_neutral (state_change old new) = false
  is_neutral (buffer_overflow capacity dropped_count policy) = false
  is_neutral _ = true

  -- The log agrees with the state, the state and counts of the statistics, the count of dropped
  -- messages as last reported, and that of the buffer.
  pub record Agrees (log : List (Event F T S)) (state : ConnectionState)
      (noted : Option ConnectionState)
      (reconnect_count messages_received last_dropped_count dropped : ℕ) : Type 0 where
    pub state_of_log : leads_to log state ≡ true
    pub state_of_stats : or_idle noted ≡ state
    pub reconnects : reconnections log ≡ reconnect_count
    pub receipts : messages log ≡ messages_received
    pub reports : reported log ≡ last_dropped_count
    pub drops : last_dropped_count ≡ dropped

  neutral_lem :
      (e : Event F T S) (log : List (Event F T S)) (state : ConnectionState)
      → is_neutral e ≡ true
      → (leads_to (e ∷ log) state ≡ leads_to log state)
        × (reconnections (e ∷ log) ≡ reconnections log)
        × (messages (e ∷ log) ≡ messages log)
        × (reported (e ∷ log) ≡ reported log)
  neutral_lem e log state h = ground arith

  pub emit_neutral :
      {log : List (Event F T S)} {state : ConnectionState} {noted : Option ConnectionState}
      {reconnect_count messages_received last_dropped_count dropped : ℕ} (e : Event F T S)
      → is_neutral e ≡ true
      → Agrees log state noted reconnect_count messages_received last_dropped_count dropped
      → Agrees (e ∷ log) state noted reconnect_count messages_received last_dropped_count dropped
  emit_neutral {log} {state} e h a =
      let n = neutral_lem e log state h in
      record {
        state_of_log = n.0 ∙ a.state_of_log;
        state_of_stats = a.state_of_stats;
        reconnects = n.1 ∙ a.reconnects;
        receipts = n.2 ∙ a.receipts;
        reports = n.3 ∙ a.reports;
        drops = a.drops;
      }

-- `total_dropped` of the buffer, where there is one.
abbrev pub total_dropped : {T S : Type 0} → Option (MessageBuffer T S) → ℕ
total_dropped none = 0
total_dropped (some b) = b.buffer.total_dropped

abbrev pub IsConsistent : {f : Float} {D T S : Type 0} → Manager f D T S → Type 0
IsConsistent m =
    Agrees m.log m.state m.stats.state m.stats.reconnect_count m.stats.messages_received
      m.last_dropped_count (total_dropped m.buffer)

-- What the methods that the others call do to it.
module _ {f : Float} {D T S : Type 0} where
  pub set_state-IsConsistent :
      (s : ConnectionState) (m : Manager f D T S) → IsConsistent m → IsConsistent (set_state s m)
  unfolding set_state Stats.set_state
  set_state-IsConsistent s m h =
      if_either IsConsistent (same_state s m.state) (λ same. h)
        (λ other. record {
          state_of_log = rw (same_state_refl s, other, h.state_of_log) refl;
          state_of_stats = refl;
          reconnects = h.reconnects;
          receipts = h.receipts;
          reports = h.reports;
          drops = h.drops;
        })

  pub begin_close-IsConsistent :
      (code : ℕ) (m : Manager f D T S) → IsConsistent m → IsConsistent (begin_close code m)
  unfolding begin_close
  begin_close-IsConsistent code m h =
      if_either IsConsistent (same_state m.state connected)
        (λ _.
          set_state-IsConsistent disconnecting (emit (Event.closing code) m)
            (emit_neutral (Event.closing code) refl h))
        (λ _. h)

  pub tear_down-IsConsistent :
      (code : ℕ) (m : Manager f D T S) → IsConsistent m → IsConsistent (tear_down code m)
  unfolding tear_down Stats.mark_disconnected
  tear_down-IsConsistent code m h = emit_neutral (Event.closed code false) refl (
      set_state-IsConsistent closed
        (record m {
          heartbeat = false;
          age_task = false;
          transport = false;
          message_task = false;
          stats = Stats.mark_disconnected f D m.stats;
        })
        h)

  pub close-IsConsistent :
      (code : ℕ) (m : Manager f D T S) → IsConsistent m → IsConsistent (close code m)
  unfolding close
  close-IsConsistent code m h =
      let m' = record m { user_closed = true; running = false } in
      if_either IsConsistent (is_terminal m.state) (λ _. h)
        (λ _.
          tear_down-IsConsistent code (begin_close code m') (begin_close-IsConsistent code m' h))
