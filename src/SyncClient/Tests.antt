-- ===== src/SyncClient/Tests.antt =====
-- A client with handlers and messages that are numbers.
use jetsocket.Prelude.{ℕ, ◌≡◌, refl, true, false, none, some, List, [], ◌∷◌, nat_eq}
use jetsocket.Exceptions.{connection_error, handshake_error, invalid_state_error, ok, err}
use jetsocket.Events.Emitter as Emitters
use jetsocket.Transport.Base.{waits, returns, raises}
use jetsocket.SyncClient.Defs.{
  Item, message, SyncWebSocket, close, next_poll, next, register, connect,
}
use jetsocket.SyncClient.Queue.{recv_times, recv_times-close}
use jetsocket.SyncClient.Handlers.{connect_retry}

abbrev fresh : List (Item ℕ) → List (ℕ × ℕ) → SyncWebSocket ℕ ℕ ℕ
fresh items pending = record {
  closed = false;
  thread_alive = false;
  has_loop = false;
  manager = none;
  message_queue = items;
  pending_handlers = pending;
}

recv_times-close_example :
    recv_times 4 (close [] (fresh (message 7 ∷ message 8 ∷ []) []))
    ≡ returns 7 ∷ returns 8 ∷ raises connection_error ∷ raises invalid_state_error ∷ []
recv_times-close_example =
    recv_times-close (fresh (message 7 ∷ message 8 ∷ []) []) (7 ∷ 8 ∷ []) refl refl

-- Two silent waits, then a message; and silent waits alone.
iterated :
    (next (none ∷ none ∷ some (message 7) ∷ []) (fresh [] []) ≡ (returns (some 7), fresh [] []))
    × (next (none ∷ none ∷ []) (fresh [] []) ≡ (waits, fresh [] []))
unfolding next next_poll
iterated = (refl, refl)

connect_retry_example :
    ((connect 0 9 true (ok tt) (fresh [] ((5, 6) ∷ []))).1.manager
      ≡ some (Emitters.add_handler 0 9 (register ((5, 6) ∷ []) [])))
    × (((connect 0 9 true (err (handshake_error none)) (fresh [] ((5, 6) ∷ []))).0
          ≡ err connection_error)
        × ((connect 0 9 true
              (ok tt)
              (connect 0 9 true (err (handshake_error none)) (fresh [] ((5, 6) ∷ []))).1).1.manager
            ≡ some (Emitters.add_handler 0 9 [])))
connect_retry_example = connect_retry 0 9 (handshake_error none) (fresh [] ((5, 6) ∷ [])) refl refl
