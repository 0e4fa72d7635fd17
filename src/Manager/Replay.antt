-- ===== src/Manager/Replay.antt =====
-- What `_replay_on_reconnect` of jetsocket/manager.py resends.
use jetsocket.Prelude.{
  ℕ, ◌+◌, ◌≡◌, refl, sym, ap, ap₂, subst, ◌∙◌, Bool, true, false, ◌&&◌, Option, none, some, List,
  [], ◌∷◌, somes, ◌==◌, if_true, arith,
}
use jetsocket.Exceptions.{Result, ok, err}
use jetsocket.State.{connected, can_send}
use jetsocket.Float.{Float}
use jetsocket.Ring.Defs as Ring
use jetsocket.Ring.Queue.{Queue, items}
use jetsocket.Ring.Represents.{Represents}
use jetsocket.Ring.Drain.{drain_lem}
use jetsocket.Buffer.Defs as Buffer
use jetsocket.Buffer.Defs.{MessageBuffer, ReplayConfig, sequence_id, full_buffer}
use jetsocket.Stats.Defs as Stats
use jetsocket.Events.Defs.{Event}
use jetsocket.Manager.Defs.{Manager, Now, emit}
use jetsocket.Manager.Send.{
  write, send, resend_next, resend, call_on_replay, resend_buffer, replay_mode, replay_with,
  replay_on_reconnect, last_sequence, message_count,
}

-- The messages before the first one that cannot be written, and their bytes.
abbrev pub counted : Result ℕ → ℕ → ℕ
counted (ok n) rest = rest + 1
counted (err e) rest = 0

abbrev pub summed : Result ℕ → ℕ → ℕ
summed (ok n) rest = n + rest
summed (err e) rest = 0

module _ {T : Type 0} where
  abbrev pub written_count : (T → Result ℕ) → List T → ℕ
  written_count written [] = 0
  written_count written (x ∷ xs) = counted (written x) (written_count written xs)

  abbrev pub written_bytes : (T → Result ℕ) → List T → ℕ
  written_bytes written [] = 0
  written_bytes written (x ∷ xs) = summed (written x) (written_bytes written xs)

module _ {f : Float} {D T S : Type 0} where
  -- A manager that has sent so many messages and bytes more than `m`, in the state and with the
  -- buffer of `m`.
  pub record Sent (count bytes : ℕ) (m m' : Manager f D T S) : Type 0 where
    pub messages : m'.stats.messages_sent ≡ m.stats.messages_sent + count
    pub bytes_sent : m'.stats.bytes_sent ≡ m.stats.bytes_sent + bytes
    pub state : m'.state ≡ m.state
    pub buffer : m'.buffer ≡ m.buffer

  resent_next :
      (now : Now f D) (written : T → Result ℕ) (xs : List T) (count : ℕ) (r : Result ℕ)
      (m : Manager f D T S)
      → ((m' : Manager f D T S)
          → m'.state ≡ m.state
          → m'.transport ≡ m.transport
          → ((resend now written xs (count + 1) m').0 ≡ count + 1 + written_count written xs)
            × Sent
                (written_count written xs)
                (written_bytes written xs)
                m'
                (resend now written xs (count + 1) m').1)
      → let p = write now r m in
        let q = resend_next (resend now written xs (count + 1)) count p.0 p.1 in
        (q.0 ≡ count + counted r (written_count written xs))
        × Sent (counted r (written_count written xs)) (summed r (written_bytes written xs)) m q.1
  unfolding write resend_next Stats.record_message_sent Stats.record_error
  resent_next now written xs count (ok n) m rest =
      let m1 : Manager f D T S = record m {
        stats = Stats.record_message_sent f D now.date n m.stats;
      } in
      let (c, s) = rest m1 refl refl in
      (
        omega (arith, c),
        record {
          messages = omega (arith, s.messages);
          bytes_sent = omega (arith, s.bytes_sent);
          state = s.state;
          buffer = s.buffer;
        },
      )
  resent_next now written xs count (err e) m rest = (
    omega arith,
    record { messages = omega arith; bytes_sent = omega arith; state = refl; buffer = refl },
  )

  -- The replay loop counts and sends the messages before the first one that cannot be written.
  pub resend_exact :
      (now : Now f D) (written : T → Result ℕ) (xs : List T) (count : ℕ) (m : Manager f D T S)
      → m.state ≡ connected
      → m.transport ≡ true
      → let r = resend now written xs count m in
        (r.0 ≡ count + written_count written xs)
        × Sent (written_count written xs) (written_bytes written xs) m r.1
  unfolding resend send
  resend_exact now written [] count m at up = (
    omega arith,
    record { messages = omega arith; bytes_sent = omega arith; state = refl; buffer = refl },
  )
  resend_exact now written (x ∷ xs) count m at up =
      let sent : send now (written x) m ≡ write now (written x) m =
        if_true (can_send m.state && m.transport) _ _ (rw (at, up) refl) in
      subst
        (λ (p : Result (Unit {0}) × Manager f D T S).
          let q = resend_next (resend now written xs (count + 1)) count p.0 p.1 in
          (q.0 ≡ count + written_count written (x ∷ xs))
          × Sent (written_count written (x ∷ xs)) (written_bytes written (x ∷ xs)) m q.1)
        (sym sent)
        (resent_next now written xs count (written x) m
          (λ m' s t. resend_exact now written xs (count + 1) m' (s ∙ at) (t ∙ up)))

  -- A replay of a full buffer on an open connection resends the messages of the buffer before the
  -- first one that cannot be written, oldest first and without those that are None; and the buffer
  -- is empty afterwards, whether they were all written or not.
  pub replay_full_buffer :
      (now : Now f D) (written : T → Result ℕ) (replayed : Result (Unit {0}))
      (config : ReplayConfig T S) (b : MessageBuffer T S) (q : Queue T S) (m : Manager f D T S)
      → m.replay_config ≡ some config
      → config.mode ≡ full_buffer
      → m.buffer ≡ some b
      → Represents b.buffer q
      → m.state ≡ connected
      → m.transport ≡ true
      → let xs = somes (items q.entries) in
        let m' = replay_on_reconnect now written replayed m in
        (m'.stats.messages_sent ≡ m.stats.messages_sent + written_count written xs)
        × (m'.stats.bytes_sent ≡ m.stats.bytes_sent + written_bytes written xs)
        × (m'.buffer ≡ some (Buffer.drain b).1)
        × Represents (Buffer.drain b).1.buffer (record q { entries = [] })
  unfolding replay_on_reconnect replay_with replay_mode resend_buffer Buffer.drain
  replay_full_buffer now written replayed config b q m hc hm hb h at up =
      let (items_eq, empty) = drain_lem h in
      let started : Manager f D T S =
        emit (Event.replay_started full_buffer (last_sequence m.buffer) (message_count m.buffer))
          m in
      let (c, s) =
        resend_exact now written (Ring.drain b.buffer).0 0
          (record started { buffer = some (Buffer.drain b).1 }) at up in
      let whole : replay_on_reconnect now written replayed m
          ≡ replay_mode now written replayed config full_buffer m =
        ap (λ c. replay_with now written replayed c m) hc
        ∙ ap (λ mode. replay_mode now written replayed config mode m) hm in
      let buffered = ap (λ o. resend_buffer now written o started) hb in
      (
        ap (λ (m : Manager f D T S). m.stats.messages_sent) whole
            ∙ ap (λ (p : ℕ × Manager f D T S). p.1.stats.messages_sent) buffered
            ∙ s.messages
            ∙ ap (λ xs. m.stats.messages_sent + written_count written xs) items_eq,
        ap (λ (m : Manager f D T S). m.stats.bytes_sent) whole
            ∙ ap (λ (p : ℕ × Manager f D T S). p.1.stats.bytes_sent) buffered
            ∙ s.bytes_sent
            ∙ ap (λ xs. m.stats.bytes_sent + written_bytes written xs) items_eq,
        ap (λ (m : Manager f D T S). m.buffer) whole
            ∙ ap (λ (p : ℕ × Manager f D T S). p.1.buffer) buffered
            ∙ s.buffer,
        empty,
      )

  no_call :
      (there : Bool) (replayed : Result (Unit {0})) (m : Manager f D T S)
      → call_on_replay there none replayed m ≡ (0, m)
  unfolding call_on_replay
  no_call true replayed m = refl
  no_call false replayed m = refl

  -- A replay by sequence ID does not call the user's callback once the buffer has been emptied,
  -- whatever the last sequence ID is: the manager only reports a replay of nothing.
  pub replay_of_empty :
      (now : Now f D) (written : T → Result ℕ) (replayed : Result (Unit {0}))
      (config : ReplayConfig T S) (b : MessageBuffer T S) (m : Manager f D T S)
      → m.replay_config ≡ some config
      → config.mode ≡ sequence_id
      → m.buffer ≡ some b
      → b.buffer.len ≡ 0
      → replay_on_reconnect now written replayed m
        ≡ emit
            (Event.replay_completed sequence_id 0)
            (emit (Event.replay_started sequence_id none 0) m)
  unfolding replay_on_reconnect replay_with replay_mode Ring.is_empty
  replay_of_empty now written replayed config b m hc hm hb empty =
      let last : last_sequence m.buffer ≡ none =
        ap last_sequence hb ∙ if_true (b.buffer.len == 0) _ _ (rw empty refl) in
      let count : message_count m.buffer ≡ 0 = ap message_count hb ∙ empty in
      let finished : Option S → ℕ → Manager f D T S = λ last count.
        let (n, m') =
          call_on_replay config.on_replay last replayed
            (emit (Event.replay_started sequence_id last count) m) in
        emit (Event.replay_completed sequence_id n) m' in
      ap (λ c. replay_with now written replayed c m) hc
      ∙ ap (λ mode. replay_mode now written replayed config mode m) hm
      ∙ ap₂ finished last count
      ∙ ap (λ (p : ℕ × Manager f D T S). emit (Event.replay_completed sequence_id p.0) p.1)
          (no_call config.on_replay replayed (emit (Event.replay_started sequence_id none 0) m))
