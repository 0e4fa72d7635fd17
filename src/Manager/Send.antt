-- ===== src/Manager/Send.antt =====
-- Sending, replaying and tracking in jetsocket/manager.py. What the serializer and the transport
-- make of a message is an argument: the number of bytes written, or the exception raised.
use jetsocket.Prelude.{
  ℕ, ◌+◌, ◌-◌, Bool, true, false, ◌&&◌, Option, none, some, List, [], ◌∷◌, ltb, Eq, if◌then◌else◌,
}
use jetsocket.Exceptions.{invalid_state_error, Result, ok, err}
use jetsocket.State.{can_send}
use jetsocket.Float.{Float}
use jetsocket.Ring.Defs as Ring
use jetsocket.Buffer.Defs as Buffer
use jetsocket.Buffer.Defs.{
  MessageBuffer, ReplayConfig, ReplayMode, sequence_id, full_buffer, no_replay,
}
use jetsocket.Stats.Defs as Stats
use jetsocket.Events.Defs.{Event}
use jetsocket.Manager.Defs.{Manager, Now, emit, record_error}

module _ {T S : Type 0} where
  -- `self._buffer.last_sequence_id if self._buffer else None`, and its length or 0. An empty
  -- buffer is false, so that its last ID is not read.
  abbrev pub last_sequence : Option (MessageBuffer T S) → Option S
  last_sequence none = none
  last_sequence (some b) = if Ring.is_empty b.buffer then none else b.last_sequence_id

  abbrev pub message_count : Option (MessageBuffer T S) → ℕ
  message_count none = 0
  message_count (some b) = b.buffer.len

  -- The sequence ID of a received message; an exception of the extractor is suppressed.
  abbrev pub extract : Option (Option T → Result S) → Option T → Option S
  extract none message = none
  extract (some extractor) message = elim (extractor message) [ ok s ↦ some s | err e ↦ none ]

module _ {f : Float} {D T S : Type 0} where
  -- The end of `send` and `send_raw`, once the state allows it.
  unfoldable pub write : Now f D → Result ℕ → Manager f D T S → Result (Unit {0}) × Manager f D T S
  write now (ok byte_count) m =
      (ok tt, record m { stats = Stats.record_message_sent f D now.date byte_count m.stats })
  write now (err e) m = (err e, m)

  -- `send` and `send_raw`, which differ in what is serialized.
  unfoldable pub send : Now f D → Result ℕ → Manager f D T S → Result (Unit {0}) × Manager f D T S
  send now written m =
      if can_send m.state && m.transport then write now written m else (err invalid_state_error, m)

  -- The end of the loop's body in the replay: one more, or a report and `break`.
  unfoldable pub resend_next :
      (Manager f D T S → ℕ × Manager f D T S)
      → ℕ
      → Result (Unit {0})
      → Manager f D T S
      → ℕ × Manager f D T S
  resend_next again count (ok _) m = again m
  resend_next again count (err e) m = (count, emit (Event.error e false) (record_error m))

  -- `for msg in messages` of the replay: the number resent, stopping at the first failure.
  unfoldable pub resend :
      Now f D → (T → Result ℕ) → List T → ℕ → Manager f D T S → ℕ × Manager f D T S
  resend now written [] count m = (count, m)
  resend now written (message ∷ messages) count m =
      let (r, m') = send now (written message) m in
      resend_next (resend now written messages (count + 1)) count r m'

  -- The branch for 'sequence_id': `replayed` is what the callback does.
  unfoldable pub call_on_replay :
      Bool → Option S → Result (Unit {0}) → Manager f D T S → ℕ × Manager f D T S
  call_on_replay true (some last) (ok _) m = (1, m)
  call_on_replay true (some last) (err e) m = (0, emit (Event.error e false) (record_error m))
  call_on_replay _ _ _ m = (0, m)

  -- The branch for 'full_buffer'.
  unfoldable pub resend_buffer :
      Now f D → (T → Result ℕ) → Option (MessageBuffer T S) → Manager f D T S → ℕ × Manager f D T S
  resend_buffer now written none m = (0, m)
  resend_buffer now written (some b) m =
      let (messages, b') = Buffer.drain b in
      resend now written messages 0 (record m { buffer = some b' })

  unfoldable pub replay_mode :
      Now f D
      → (T → Result ℕ)
      → Result (Unit {0})
      → ReplayConfig T S
      → ReplayMode
      → Manager f D T S
      → Manager f D T S
  replay_mode now written replayed config no_replay m = m
  replay_mode now written replayed config sequence_id m =
      let last = last_sequence m.buffer in
      let started = emit (Event.replay_started sequence_id last (message_count m.buffer)) m in
      let (count, m') = call_on_replay config.on_replay last replayed started in
      emit (Event.replay_completed sequence_id count) m'
  replay_mode now written replayed config full_buffer m =
      let last = last_sequence m.buffer in
      let started = emit (Event.replay_started full_buffer last (message_count m.buffer)) m in
      let (count, m') = resend_buffer now written started.buffer started in
      emit (Event.replay_completed full_buffer count) m'

  unfoldable pub replay_with :
      Now f D
      → (T → Result ℕ)
      → Result (Unit {0})
      → Option (ReplayConfig T S)
      → Manager f D T S
      → Manager f D T S
  replay_with now written replayed none m = m
  replay_with now written replayed (some config) m =
      replay_mode now written replayed config config.mode m

  -- `_replay_on_reconnect`
  unfoldable pub replay_on_reconnect :
      Now f D → (T → Result ℕ) → Result (Unit {0}) → Manager f D T S → Manager f D T S
  replay_on_reconnect now written replayed m = replay_with now written replayed m.replay_config m

module _ {f : Float} {D T S : Type 0} ⦃e : Eq S⦄ where
  -- `_track_received_message` after its push, with the number dropped before it.
  unfoldable pub report_overflow : ℕ → MessageBuffer T S → Manager f D T S → Manager f D T S
  report_overflow prev_dropped b m =
      let m' = record m { buffer = some b } in
      if ltb prev_dropped b.buffer.total_dropped
      then emit
          (Event.buffer_overflow b.buffer.capacity (b.buffer.total_dropped - m.last_dropped_count)
            b.config.overflow_policy)
          (record m' { last_dropped_count = b.buffer.total_dropped })
      else m'

  unfoldable pub track_with :
      Option T
      → Option (MessageBuffer T S)
      → Option (ReplayConfig T S)
      → Manager f D T S
      → Manager f D T S
  track_with message (some b) (some config) m =
      report_overflow b.buffer.total_dropped
        (Buffer.push message (extract config.sequence_extractor message) b).1 m
  track_with message _ _ m = m

  -- `_track_received_message`
  unfoldable pub track_received_message : Option T → Manager f D T S → Manager f D T S
  track_received_message message m = track_with message m.buffer m.replay_config m
