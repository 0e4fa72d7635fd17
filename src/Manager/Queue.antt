-- ===== src/Manager/Queue.antt =====
-- What the message loop of jetsocket/manager.py puts into the queue for `recv`.
use jetsocket.Prelude.{
  ℕ, ◌+◌, ◌≡◌, refl, sym, ap, subst, ◌∙◌, Bool, true, ◌&&◌, Option, none, some, List, [], ◌∷◌, ◌++◌,
  map, append-nil, append_assoc, ltb, Eq, ◌==◌, length, length-append, if◌then◌else◌, if_either,
  if_true, Bool-cases, inl, inr, arith,
}
use jetsocket.Exceptions.{Result, ok, err}
use jetsocket.State.{connected, same_state}
use jetsocket.Float.{Float}
use jetsocket.Buffer.Defs.{MessageBuffer, ReplayConfig}
use jetsocket.Stats.Defs as Stats
use jetsocket.Events.Defs.{Event}
use jetsocket.Manager.Defs.{waiting, Manager, Run, emit}
use jetsocket.Manager.Send.{report_overflow, track_with, track_received_message}
use jetsocket.Manager.Loop.{
  Incoming, frame, arrive, receive_message, receive_parsed, receive_frame, receive_frames,
  message_loop,
}

-- The messages that a frame delivers, which are one or none: pongs of the protocol and of the
-- application, which count where a heartbeat runs, and what cannot be parsed deliver none.
module _ {T : Type 0} where
  abbrev pub parsed_delivery : Bool → Result (Option T) → List (Option T)
  parsed_delivery skipped (ok message) = if skipped then [] else message ∷ []
  parsed_delivery skipped (err e) = []

module _ {f : Float} {D T : Type 0} where
  abbrev pub delivery : Bool → Incoming f D T → List (Option T)
  delivery heartbeat i =
      if i.opcode == 10 then [] else parsed_delivery (heartbeat && i.is_app_pong) i.parsed

  abbrev pub deliveries : Bool → List (Incoming f D T) → List (Option T)
  deliveries heartbeat [] = []
  deliveries heartbeat (i ∷ is) = delivery heartbeat i ++ deliveries heartbeat is

module _ {f : Float} {D T S : Type 0} ⦃e : Eq S⦄ where
  -- A manager with all that the loop reads of `m`, and `xs` put into the queue.
  pub record Delivers (xs : List (Option T)) (m m' : Manager f D T S) : Type 0 where
    pub queued : m'.message_queue ≡ m.message_queue ++ xs
    pub counted : m'.stats.messages_received ≡ m.stats.messages_received + length xs
    pub state : m'.state ≡ m.state
    pub running : m'.running ≡ m.running
    pub heartbeat : m'.heartbeat ≡ m.heartbeat

  nothing :
      (m m' : Manager f D T S)
      → m'.message_queue ≡ m.message_queue
      → m'.stats.messages_received ≡ m.stats.messages_received
      → m'.state ≡ m.state
      → m'.running ≡ m.running
      → m'.heartbeat ≡ m.heartbeat
      → Delivers [] m m'
  nothing m m' q c s r h = record {
    queued = q ∙ sym (append-nil m.message_queue);
    counted = omega (arith, c);
    state = s;
    running = r;
    heartbeat = h;
  }

  report_overflow-frame {ℓ} :
      {A : Type ℓ} (g : Manager f D T S → A) (prev : ℕ) (b : MessageBuffer T S)
      (m : Manager f D T S)
      → ((buffer : Option (MessageBuffer T S)) (count : ℕ) (log : List (Event f.F T S))
          → g (record m { buffer = buffer; last_dropped_count = count; log = log }) ≡ g m)
      → g (report_overflow prev b m) ≡ g m
  unfolding report_overflow
  report_overflow-frame g prev b m h =
      if_either (λ m'. g m' ≡ g m) (ltb prev b.buffer.total_dropped) (λ _. h _ _ _) (λ _. h _ _ _)

  track_with-frame {ℓ} :
      {A : Type ℓ} (g : Manager f D T S → A) (message : Option T)
      (buffer : Option (MessageBuffer T S)) (config : Option (ReplayConfig T S))
      (m : Manager f D T S)
      → ((buffer : Option (MessageBuffer T S)) (count : ℕ) (log : List (Event f.F T S))
          → g (record m { buffer = buffer; last_dropped_count = count; log = log }) ≡ g m)
      → g (track_with message buffer config m) ≡ g m
  unfolding track_with
  track_with-frame g message none config m h = refl
  track_with-frame g message (some b) none m h = refl
  track_with-frame g message (some b) (some config) m h =
      report_overflow-frame g b.buffer.total_dropped _ m h

  receive_message-Delivers :
      (i : Incoming f D T) (message : Option T) (m : Manager f D T S)
      → Delivers (message ∷ []) m (receive_message i message m)
  unfolding receive_message track_received_message Stats.record_message_received
  receive_message-Delivers i message m = record {
    queued =
        ap (λ q. q ++ (message ∷ []))
          (track_with-frame (λ m. m.message_queue) message m.buffer m.replay_config m
            (λ _ _ _. refl));
    counted =
        ap (λ n. n + 1)
          (track_with-frame (λ m. m.stats.messages_received) message m.buffer m.replay_config m
            (λ _ _ _. refl));
    state = track_with-frame (λ m. m.state) message m.buffer m.replay_config m (λ _ _ _. refl);
    running = track_with-frame (λ m. m.running) message m.buffer m.replay_config m (λ _ _ _. refl);
    heartbeat =
        track_with-frame (λ m. m.heartbeat) message m.buffer m.replay_config m (λ _ _ _. refl);
  }

  receive_parsed-Delivers :
      (i : Incoming f D T) (r : Result (Option T)) (m : Manager f D T S)
      → Delivers (parsed_delivery (m.heartbeat && i.is_app_pong) r) m (receive_parsed i r m)
  unfolding receive_parsed Stats.record_error
  receive_parsed-Delivers i (ok message) m = elim (Bool-cases (m.heartbeat && i.is_app_pong)) [
    | inl pong ↦ rw pong (nothing m m refl refl refl refl refl)
    | inr other ↦ rw other (receive_message-Delivers i message m)
  ]
  receive_parsed-Delivers i (err x) m = nothing m _ refl refl refl refl refl

  receive_frame-Delivers :
      (i : Incoming f D T) (m : Manager f D T S)
      → Delivers (delivery m.heartbeat i) m (receive_frame i m)
  unfolding receive_frame
  receive_frame-Delivers i m = elim (Bool-cases (i.opcode == 10)) [
    | inl pong ↦ rw pong (nothing m (emit Event.pong m) refl refl refl refl refl)
    | inr other ↦
        let h : Delivers (parsed_delivery (m.heartbeat && i.is_app_pong) i.parsed)
            (emit (Event.raw_message i.opcode) m)
            (receive_parsed i i.parsed (emit (Event.raw_message i.opcode) m)) =
          receive_parsed-Delivers i i.parsed (emit (Event.raw_message i.opcode) m) in
        rw other (record {
          queued = h.queued;
          counted = h.counted;
          state = h.state;
          running = h.running;
          heartbeat = h.heartbeat;
        })
  ]

  joined :
      {xs ys : List (Option T)} {m m1 m2 : Manager f D T S}
      → Delivers xs m m1
      → Delivers ys m1 m2
      → Delivers (xs ++ ys) m m2
  joined {xs} {ys} {m} h k = record {
    queued = k.queued ∙ ap (λ q. q ++ ys) h.queued ∙ append_assoc m.message_queue xs ys;
    counted = omega (arith, h.counted, k.counted, length-append xs ys);
    state = k.state ∙ h.state;
    running = k.running ∙ h.running;
    heartbeat = k.heartbeat ∙ h.heartbeat;
  }

  frames_delivered :
      (is : List (Incoming f D T)) (m : Manager f D T S)
      → m.running ≡ true
      → m.state ≡ connected
      → let r = receive_frames (map frame is) m in
        (r.0 ≡ waiting) × Delivers (deliveries m.heartbeat is) m r.1
  unfolding receive_frames arrive
  frames_delivered [] m running at =
      subst (λ (r : Run f D T S). (r.0 ≡ waiting) × Delivers [] m r.1)
        (sym (if_true (m.running && same_state m.state connected) _ _ (rw (running, at) refl)))
        (refl, nothing m m refl refl refl refl refl)
  frames_delivered (i ∷ is) m running at =
      let m1 = receive_frame i m in
      let h = receive_frame-Delivers i m in
      let rest = frames_delivered is m1 (h.running ∙ running) (h.state ∙ at) in
      let going : m.running && same_state m.state connected ≡ true = rw (running, at) refl in
      subst
        (λ (r : Run f D T S). (r.0 ≡ waiting) × Delivers (deliveries m.heartbeat (i ∷ is)) m r.1)
        (sym (if_true (m.running && same_state m.state connected) _ _ going))
        (
          rest.0,
          joined h (
              subst (λ b. Delivers (deliveries b is) m1 (receive_frames (map frame is) m1).1)
                h.heartbeat rest.1),
        )

  -- While the transport gives frames to a running and connected manager, the message loop puts
  -- what they deliver into the queue, all of it and in order, counts it as received, and waits for
  -- the next frame.
  pub receive_order :
      (is : List (Incoming f D T)) (m : Manager f D T S)
      → m.transport ≡ true
      → m.running ≡ true
      → m.state ≡ connected
      → let r = message_loop (map frame is) m in
        (r.0 ≡ waiting) × Delivers (deliveries m.heartbeat is) m r.1
  unfolding message_loop
  receive_order is m up running at =
      subst (λ (r : Run f D T S). (r.0 ≡ waiting) × Delivers (deliveries m.heartbeat is) m r.1)
        (sym (if_true m.transport _ _ up)) (frames_delivered is m running at)
