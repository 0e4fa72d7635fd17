-- ===== src/Manager/Messages.antt =====
-- Sending, replaying and receiving in jetsocket/manager.py keep the log consistent.
use jetsocket.Prelude.{
  ℕ, ◌+◌, ◌≤◌, ◌≡◌, refl, sym, ap, ◌∙◌, Bool, true, false, ◌&&◌, Option, none, some, List, [], ◌∷◌,
  ltb, Eq, ◌==◌, if_either, arith,
}
use jetsocket.Exceptions.{Error, Result, ok, err}
use jetsocket.State.{can_send}
use jetsocket.Float.{Float}
use jetsocket.Buffer.Defs as Buffer
use jetsocket.Buffer.Defs.{
  MessageBuffer, ReplayConfig, ReplayMode, sequence_id, full_buffer, no_replay,
}
use jetsocket.Buffer.Drops.{drain-dropped, push-dropped}
use jetsocket.Stats.Defs as Stats
use jetsocket.Events.Defs.{Event}
use jetsocket.Manager.Defs.{Manager, Now, emit, record_error}
use jetsocket.Manager.Send.{
  write, send, resend_next, resend, call_on_replay, resend_buffer, replay_mode, replay_with,
  replay_on_reconnect, report_overflow, track_with, track_received_message, last_sequence, extract,
}
use jetsocket.Manager.Loop.{Incoming, receive_message, receive_parsed, receive_frame}
use jetsocket.Manager.Consistent.{IsConsistent, emit_neutral, total_dropped}

module _ {f : Float} {D T S : Type 0} where
  pub record_error-IsConsistent :
      (m : Manager f D T S) → IsConsistent m → IsConsistent (record_error m)
  unfolding Stats.record_error
  record_error-IsConsistent m h = h

  write-IsConsistent :
      (now : Now f D) (r : Result ℕ) (m : Manager f D T S)
      → IsConsistent m
      → IsConsistent (write now r m).1
  unfolding write Stats.record_message_sent
  write-IsConsistent now (ok byte_count) m h = h
  write-IsConsistent now (err e) m h = h

  pub send-IsConsistent :
      (now : Now f D) (written : Result ℕ) (m : Manager f D T S)
      → IsConsistent m
      → IsConsistent (send now written m).1
  unfolding send
  send-IsConsistent now written m h =
      if_either (λ (r : Result (Unit {0}) × Manager f D T S). IsConsistent r.1)
        (can_send m.state && m.transport) (λ _. write-IsConsistent now written m h) (λ _. h)

  -- An error that is noted and reported.
  report :
      (e : Error) (m : Manager f D T S)
      → IsConsistent m
      → IsConsistent (emit (Event.error e false) (record_error m))
  report e m h = emit_neutral (Event.error e false) refl (record_error-IsConsistent m h)

  resend_end :
      (again : Manager f D T S → ℕ × Manager f D T S) (count : ℕ) (r : Result (Unit {0}))
      (m : Manager f D T S)
      → ((m' : Manager f D T S) → IsConsistent m' → IsConsistent (again m').1)
      → IsConsistent m
      → IsConsistent (resend_next again count r m).1
  unfolding resend_next
  resend_end again count (ok _) m rest h = rest m h
  resend_end again count (err e) m rest h = report e m h

  resend-IsConsistent :
      (now : Now f D) (written : T → Result ℕ) (messages : List T) (count : ℕ) (m : Manager f D T S)
      → IsConsistent m
      → IsConsistent (resend now written messages count m).1
  unfolding resend
  resend-IsConsistent now written [] count m h = h
  resend-IsConsistent now written (x ∷ xs) count m h =
      resend_end (resend now written xs (count + 1)) count (send now (written x) m).0
        (send now (written x) m).1 (λ m' h'. resend-IsConsistent now written xs (count + 1) m' h')
        (send-IsConsistent now (written x) m h)

  call_on_replay-IsConsistent :
      (there : Bool) (last : Option S) (replayed : Result (Unit {0})) (m : Manager f D T S)
      → IsConsistent m
      → IsConsistent (call_on_replay there last replayed m).1
  unfolding call_on_replay
  call_on_replay-IsConsistent true (some last) (ok _) m h = h
  call_on_replay-IsConsistent true (some last) (err e) m h = report e m h
  call_on_replay-IsConsistent true none replayed m h = h
  call_on_replay-IsConsistent false last replayed m h = h

  resend_buffer-IsConsistent :
      (now : Now f D) (written : T → Result ℕ) (buffer : Option (MessageBuffer T S))
      (m : Manager f D T S)
      → buffer ≡ m.buffer
      → IsConsistent m
      → IsConsistent (resend_buffer now written buffer m).1
  unfolding resend_buffer
  resend_buffer-IsConsistent now written none m e h = h
  resend_buffer-IsConsistent now written (some b) m e h =
      resend-IsConsistent now written (Buffer.drain b).0 0
        (record m { buffer = some (Buffer.drain b).1 })
        (record {
          state_of_log = h.state_of_log;
          state_of_stats = h.state_of_stats;
          reconnects = h.reconnects;
          receipts = h.receipts;
          reports = h.reports;
          drops = h.drops ∙ ap total_dropped (sym e) ∙ sym (drain-dropped b);
        })

  replay_mode-IsConsistent :
      (now : Now f D) (written : T → Result ℕ) (replayed : Result (Unit {0}))
      (config : ReplayConfig T S) (mode : ReplayMode) (m : Manager f D T S)
      → IsConsistent m
      → IsConsistent (replay_mode now written replayed config mode m)
  unfolding replay_mode
  replay_mode-IsConsistent now written replayed config no_replay m h = h
  replay_mode-IsConsistent now written replayed config sequence_id m h = emit_neutral _ refl (
      call_on_replay-IsConsistent config.on_replay (last_sequence m.buffer) replayed _
        (emit_neutral _ refl h))
  replay_mode-IsConsistent now written replayed config full_buffer m h =
      emit_neutral _ refl
        (resend_buffer-IsConsistent now written m.buffer _ refl (emit_neutral _ refl h))

  replay_with-IsConsistent :
      (now : Now f D) (written : T → Result ℕ) (replayed : Result (Unit {0}))
      (config : Option (ReplayConfig T S)) (m : Manager f D T S)
      → IsConsistent m
      → IsConsistent (replay_with now written replayed config m)
  unfolding replay_with
  replay_with-IsConsistent now written replayed none m h = h
  replay_with-IsConsistent now written replayed (some config) m h =
      replay_mode-IsConsistent now written replayed config config.mode m h

  pub replay_on_reconnect-IsConsistent :
      (now : Now f D) (written : T → Result ℕ) (replayed : Result (Unit {0})) (m : Manager f D T S)
      → IsConsistent m
      → IsConsistent (replay_on_reconnect now written replayed m)
  unfolding replay_on_reconnect
  replay_on_reconnect-IsConsistent now written replayed m h =
      replay_with-IsConsistent now written replayed m.replay_config m h

module _ {f : Float} {D T S : Type 0} ⦃e : Eq S⦄ where
  -- With `prev_dropped` read from the buffer before the push.
  report_overflow-IsConsistent :
      (prev : MessageBuffer T S) (b : MessageBuffer T S) (m : Manager f D T S)
      → m.buffer ≡ some prev
      → prev.buffer.total_dropped ≤ b.buffer.total_dropped
      → IsConsistent m
      → IsConsistent (report_overflow prev.buffer.total_dropped b m)
  unfolding report_overflow
  report_overflow-IsConsistent prev b m at le h =
      let last : m.last_dropped_count ≡ prev.buffer.total_dropped = h.drops ∙ ap total_dropped at in
      if_either IsConsistent (ltb prev.buffer.total_dropped b.buffer.total_dropped)
        (λ _. record {
          state_of_log = h.state_of_log;
          state_of_stats = h.state_of_stats;
          reconnects = h.reconnects;
          receipts = h.receipts;
          reports = omega (arith, h.reports, last, le);
          drops = refl;
        })
        (λ more. record {
          state_of_log = h.state_of_log;
          state_of_stats = h.state_of_stats;
          reconnects = h.reconnects;
          receipts = h.receipts;
          reports = h.reports;
          drops = ground (arith, last, le, more);
        })

  track_with-IsConsistent :
      (message : Option T) (buffer : Option (MessageBuffer T S))
      (config : Option (ReplayConfig T S)) (m : Manager f D T S)
      → m.buffer ≡ buffer
      → IsConsistent m
      → IsConsistent (track_with message buffer config m)
  unfolding track_with
  track_with-IsConsistent message none config m at h = h
  track_with-IsConsistent message (some b) none m at h = h
  track_with-IsConsistent message (some b) (some config) m at h =
      report_overflow-IsConsistent b
        (Buffer.push message (extract config.sequence_extractor message) b).1 m at
        (push-dropped message (extract config.sequence_extractor message) b) h

  receive_message-IsConsistent :
      (i : Incoming f D T) (message : Option T) (m : Manager f D T S)
      → IsConsistent m
      → IsConsistent (receive_message i message m)
  unfolding receive_message track_received_message Stats.record_message_received
  receive_message-IsConsistent i message m h =
      let h1 : IsConsistent (track_with message m.buffer m.replay_config m) =
        track_with-IsConsistent message m.buffer m.replay_config m refl h in
      record {
        state_of_log = h1.state_of_log;
        state_of_stats = h1.state_of_stats;
        reconnects = h1.reconnects;
        receipts = omega (arith, h1.receipts);
        reports = h1.reports;
        drops = h1.drops;
      }

  receive_parsed-IsConsistent :
      (i : Incoming f D T) (parsed : Result (Option T)) (m : Manager f D T S)
      → IsConsistent m
      → IsConsistent (receive_parsed i parsed m)
  unfolding receive_parsed
  receive_parsed-IsConsistent i (ok message) m h =
      if_either IsConsistent (m.heartbeat && i.is_app_pong) (λ _. h)
        (λ _. receive_message-IsConsistent i message m h)
  receive_parsed-IsConsistent i (err x) m h = report x m h

  pub receive_frame-IsConsistent :
      (i : Incoming f D T) (m : Manager f D T S) → IsConsistent m → IsConsistent (receive_frame i m)
  unfolding receive_frame
  receive_frame-IsConsistent i m h =
      if_either IsConsistent (i.opcode == 10) (λ _. emit_neutral _ refl h)
        (λ _.
          receive_parsed-IsConsistent i i.parsed _
            (emit_neutral (Event.raw_message i.opcode) refl h))
