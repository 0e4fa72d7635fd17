-- ===== src/Manager/Stop.antt =====
-- How a connection of jetsocket/manager.py ends: by the user, by a fatal answer of the server, or by
-- an exception that `_connect_internal` does not catch.
use jetsocket.Prelude.{
  ℕ, ◌≡◌, refl, ap, ◌∙◌, ◌&&◌, Bool, true, false, not, Option, some, List, [], ◌∷◌, Bool-cases, inl,
  inr, if_false,
}
use jetsocket.Exceptions.{Error, invalid_state_error, Result, err}
use jetsocket.State.{
  ConnectionState, connecting, disconnected, connected, closed, is_terminal, same_state,
}
use jetsocket.Float.{Float}
use jetsocket.Stats.Defs.{Stats}
use jetsocket.Events.Defs.{Event}
use jetsocket.Manager.Defs.{
  returned, raised, Manager, Now, emit, set_state, close, tear_down, begin_close, is_caught,
  is_fatal_code,
}
use jetsocket.Manager.SetState.{set_state-state, set_state-frame}
use jetsocket.Manager.Send.{send}
use jetsocket.Manager.Connect.{
  Pause, Try, begin_attempt, attempt_with, connect_internal, connect, disconnect, handle_disconnect,
}
use jetsocket.Manager.Loop.{blocked, anext, get_message}

module _ {f : Float} {D T S : Type 0} where
  begin_close-frame :
      (code : ℕ) (m : Manager f D T S)
      → ((begin_close code m).running ≡ m.running)
        × ((begin_close code m).user_closed ≡ m.user_closed)
  unfolding begin_close
  begin_close-frame code m = elim (Bool-cases (same_state m.state connected)) [
    | inl at_work ↦ rw at_work (
      set_state-frame (λ m. m.running) _ _ (λ x y z. refl),
      set_state-frame (λ m. m.user_closed) _ _ (λ x y z. refl),
    )
    | inr other ↦ rw other (refl, refl)
  ]

  -- What `close` leaves.
  abbrev pub IsStopped : Manager f D T S → Type 0
  IsStopped m = (is_terminal m.state ≡ true) × (m.running ≡ false) × (m.user_closed ≡ true)

  pub close-IsStopped : (code : ℕ) (m : Manager f D T S) → IsStopped (close code m)
  unfolding close tear_down
  close-IsStopped code m = elim (Bool-cases (is_terminal m.state)) [
    | inl terminal ↦ rw terminal (terminal, refl, refl)
    | inr going ↦ rw going (
      ap is_terminal (set_state-state closed _),
      set_state-frame (λ m. m.running) closed _ (λ x y z. refl) ∙ (begin_close-frame code _).0,
      set_state-frame (λ m. m.user_closed) closed _ (λ x y z. refl) ∙ (begin_close-frame code _).1,
    )
  ]

  begin_attempt-state : (m : Manager f D T S) → (begin_attempt m).state ≡ connecting
  unfolding begin_attempt
  begin_attempt-state m = set_state-state connecting _

  -- An exception that `_connect_internal` does not catch, such as the ValueError for a malformed
  -- URI, leaves the manager connecting: `connect` and `send` are refused from then on.
  pub uncaught_wedges :
      (t : Try f D T) (ts ts' : List (Try f D T)) (e : Error) (now : Now f D) (written : Result ℕ)
      (m : Manager f D T S)
      → t.failure ≡ some e
      → is_caught e ≡ false
      → let r = connect_internal (t ∷ ts) m in
        (r.0 ≡ raised e)
        × (r.1.state ≡ connecting)
        × (connect ts' r.1 ≡ (raised invalid_state_error, r.1))
        × (send now written r.1 ≡ (err invalid_state_error, r.1))
  unfolding connect_internal attempt_with connect send
  uncaught_wedges t ts ts' e now written m failure caught =
      let at : (begin_attempt m).state ≡ connecting = begin_attempt-state m in
      rw (failure, caught, at) (refl, refl, refl, refl)

  disconnect-frame {ℓ} :
      {A : Type ℓ} (g : Manager f D T S → A) (code : ℕ) (was_clean : Bool) (now : Now f D)
      (m : Manager f D T S)
      → ((state : ConnectionState) (stats : Stats f D) (log : List (Event f.F T S))
            (age_task : Bool) (time : Option f.F)
          → g (record m {
            state = state;
            stats = stats;
            log = log;
            age_task = age_task;
            disconnect_time = time;
          })
            ≡ g m)
      → g (disconnect code was_clean now m) ≡ g m
  unfolding disconnect set_state
  disconnect-frame g code was_clean now m h = elim (Bool-cases (same_state disconnected m.state)) [
    | inl same ↦ rw same (h _ _ _ _ _)
    | inr other ↦ rw other (h _ _ _ _ _)
  ]

  not_reconnected :
      (code : ℕ) (was_clean : Bool) (now : Now f D) (p : Pause f) (ts : List (Try f D T))
      (m : Manager f D T S)
      → m.reconnect_enabled && not m.user_closed && not (is_fatal_code code) ≡ false
      → handle_disconnect code was_clean now p ts m ≡ (
        returned,
        emit (Event.closed code false) (set_state closed (disconnect code was_clean now m)),
      )
  unfolding handle_disconnect
  not_reconnected code was_clean now p ts m final = if_false _ _ _ (
      disconnect-frame (λ m. m.reconnect_enabled && not m.user_closed && not (is_fatal_code code))
        code was_clean now m (λ _ _ _ _ _. refl)
      ∙ final)

  hanging : (m : Manager f D T S) → m.running ≡ true → m.message_queue ≡ [] → anext m ≡ (blocked, m)
  unfolding anext get_message
  hanging m running empty = rw (running, empty) refl

  -- Where a running manager handles a disconnection after which it does not reconnect, because of a
  -- fatal close code or with reconnection off, and no message is queued, it is closed, but
  -- iteration over the messages goes on waiting.
  pub iteration_hangs :
      (code : ℕ) (was_clean : Bool) (now : Now f D) (p : Pause f) (ts : List (Try f D T))
      (m : Manager f D T S)
      → m.running ≡ true
      → m.reconnect_enabled && not m.user_closed && not (is_fatal_code code) ≡ false
      → m.message_queue ≡ []
      → let m' = (handle_disconnect code was_clean now p ts m).1 in
        (m'.state ≡ closed) × (anext m' ≡ (blocked, m'))
  iteration_hangs code was_clean now p ts m running final empty =
      rw (not_reconnected code was_clean now p ts m final) (
        set_state-state closed _,
        hanging _
            (set_state-frame (λ m. m.running) closed _ (λ _ _ _. refl)
              ∙ disconnect-frame (λ m. m.running) code was_clean now m (λ _ _ _ _ _. refl)
              ∙ running)
            (set_state-frame (λ m. m.message_queue) closed _ (λ _ _ _. refl)
              ∙ disconnect-frame (λ m. m.message_queue) code was_clean now m (λ _ _ _ _ _. refl)
              ∙ empty),
      )
