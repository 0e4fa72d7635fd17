-- ===== src/Transport/Async/Close.antt =====
-- `close` and `_wait_for_close` of jetsocket/transport/_async.py. The wait has a timeout: where the
-- script of events ends, it times out.
use jetsocket.Prelude.{
  ℕ, suc, Bool, true, false, not, ◌||◌, Option, none, some, List, [], ◌∷◌, ◌==◌, if◌then◌else◌,
}
use jetsocket.Codec.Opcode.{value, Frame}
use jetsocket.Codec.Encode.{encode_close}
use jetsocket.Transport.Base.{Environment}
use jetsocket.Transport.Async.State.{with_frames}
use jetsocket.Transport.Async.Protocol.{write}
use jetsocket.Transport.Async.Defs.{
  AsyncTransport, Event, times_out, with_protocol, with_status, with_close, close_transport, happen,
}
use jetsocket.Transport.Async.Recv.{without_ready}

-- Pop frames up to a close frame: whether there was one, and what is left.
unfoldable pub pop_to_close : List Frame → Bool × List Frame
pop_to_close [] = (false, [])
pop_to_close (frame ∷ frames) =
    let later = pop_to_close frames in if value frame.opcode == 0x8 then (true, frames) else later

module _ {C D : Type 0} (env : Environment C D) where
  -- After a wait that was woken: a close frame or the loss of the connection ends it.
  unfoldable pub on_woken :
      (AsyncTransport C D → List Event × AsyncTransport C D)
      → List Event
      → AsyncTransport C D
      → List Event × AsyncTransport C D
  on_woken again events t =
      let popped : Bool × List Frame = pop_to_close t.protocol.frames in
      let rest : AsyncTransport C D =
        with_protocol t (with_frames t.protocol (popped.1) t.protocol.frame_ready) in
      if (popped.0) || t.protocol.connection_lost
      then (events, rest)
      else again (without_ready env (popped.1) rest)

  unfoldable pub wait_for_close : List Event → AsyncTransport C D → List Event × AsyncTransport C D
  wait_for_close [] t = ([], t)
  wait_for_close (event ∷ events) t =
      let after : AsyncTransport C D = with_protocol t (happen env event t.protocol) in
      let woken : List Event × AsyncTransport C D = on_woken (wait_for_close events) events after in
      let still : List Event × AsyncTransport C D = wait_for_close events after in
      elim event [
        | times_out ↦ (events, t)
        | _ ↦ if after.protocol.frame_ready then woken else still
      ]

  -- The try block of `close`: an error of `encode_close` is suppressed, and the wait with it.
  abbrev close_handshake :
      Option (List ℕ) → List Event → AsyncTransport C D → List Event × AsyncTransport C D
  close_handshake none events t = (events, t)
  close_handshake (some octets) events t =
      let sent : AsyncTransport C D =
        with_protocol t (write octets (suc t.protocol.random_count) t.protocol) in
      wait_for_close events (without_ready env sent.protocol.frames sent)

  abbrev finished : List Event × AsyncTransport C D → List Event × AsyncTransport C D
  finished (events, t) = (events, close_transport (with_status t false t.closing))

  unfoldable pub close :
      ℕ → List ℕ → List Event → AsyncTransport C D → List Event × AsyncTransport C D
  close code reason events t =
      let closing : AsyncTransport C D = with_close (with_status t t.connected true) code reason in
      if not t.connected || t.closing
      then (events, t)
      else finished (
          if t.attached
          then close_handshake
              (encode_close code reason (some (env.random_key t.protocol.random_count))) events
              closing
          else (events, closing))
