-- ===== src/Transport/Sync/Keeps.antt =====
-- What the handling of control frames leaves alone.
use jetsocket.Prelude.{ℕ, false, Option, none, some, List, ◌≡◌, refl, if_either}
use jetsocket.Codec.Opcode.{Frame}
use jetsocket.Transport.Base.{
  Reply, waits, returns, raises, next_statement, suppressed, Environment,
}
use jetsocket.Transport.Sync.State.{SyncTransport, has, close_socket}
use jetsocket.Transport.Sync.Defs.{
  transmit, send_encoded, send_close, send_packed, disconnected, echo_close, handle_ping_frame,
  handle_close_frame,
}

module _ {C D : Type 0} where
  -- A statement that leaves the queue as it was.
  abbrev pub Keeps : SyncTransport C D → SyncTransport C D → Type 0
  Keeps t u = (u.pending_frames ≡ t.pending_frames) × (u.connected ≡ t.connected)

  suppressed-Keeps :
      (t : SyncTransport C D) (r : Reply (Unit {0}) × SyncTransport C D)
      → Keeps t r.1
      → Keeps t (suppressed r).1
  suppressed-Keeps t (waits, u) h = h
  suppressed-Keeps t (returns a, u) h = h
  suppressed-Keeps t (raises e, u) h = h

  transmit-Keeps : (octets : List ℕ) (t : SyncTransport C D) → Keeps t (transmit octets t).1
  unfolding transmit
  transmit-Keeps octets t =
      if_either (λ (r : Reply (Unit {0}) × SyncTransport C D). Keeps t r.1) t.socket_open
        (λ e. (refl, refl)) (λ e. (refl, refl))

  -- A frame that ends the connection, unless the call is stuck in its echo.
  abbrev pub Ended : SyncTransport C D → Reply (Unit {0}) × SyncTransport C D → Type 0
  Ended t (waits, u) = u.pending_frames ≡ t.pending_frames
  Ended t (raises e, u) = u.pending_frames ≡ t.pending_frames
  Ended t (returns a, u) = (u.pending_frames ≡ t.pending_frames) × (u.connected ≡ false)

  disconnected-Ended :
      (t : SyncTransport C D) (r : Reply (Unit {0}) × SyncTransport C D)
      → Keeps t r.1
      → Ended t (next_statement r (λ (a : Unit {0}) (u : SyncTransport C D). disconnected u))
  unfolding disconnected close_socket
  disconnected-Ended t (waits, u) h = h.0
  disconnected-Ended t (raises e, u) h = h.0
  disconnected-Ended t (returns a, u) h = (h.0, refl)

  module _ (env : Environment C D) where
    pub handle_ping_frame-Keeps :
        (frame : Frame) (t : SyncTransport C D) → Keeps t (handle_ping_frame env frame t).1
    unfolding handle_ping_frame send_encoded
    handle_ping_frame-Keeps frame t =
        if_either (λ (r : Reply (Unit {0}) × SyncTransport C D). Keeps t r.1) (has t.parser)
          (λ e. suppressed-Keeps t _ (transmit-Keeps _ _)) (λ e. (refl, refl))

    send_packed-Keeps :
        (o : Option (List ℕ)) (t : SyncTransport C D) → Keeps t (send_packed env o t).1
    send_packed-Keeps none t = (refl, refl)
    send_packed-Keeps (some octets) t = transmit-Keeps octets _

    echo_close-Keeps :
        (code : ℕ) (reason : List ℕ) (t : SyncTransport C D)
        → Keeps t (echo_close env code reason t).1
    unfolding echo_close send_close
    echo_close-Keeps code reason t =
        if_either (λ (r : Reply (Unit {0}) × SyncTransport C D). Keeps t r.1) t.closing
          (λ e. (refl, refl))
          (λ e.
            if_either (λ (r : Reply (Unit {0}) × SyncTransport C D). Keeps t r.1) (has t.parser)
              (λ e. suppressed-Keeps t _ (send_packed-Keeps _ _)) (λ e. (refl, refl)))

    pub handle_close_frame-Ended :
        (frame : Frame) (t : SyncTransport C D) → Ended t (handle_close_frame env frame t)
    unfolding handle_close_frame
    handle_close_frame-Ended frame t = disconnected-Ended t _ (echo_close-Keeps _ _ _)
