-- ===== src/Transport/Async/Defs.antt =====
-- `AsyncTransport` of jetsocket/transport/_async.py, from the end of its handshake on: the state, the
-- end of `connect`, and the calls that send. The transport and its protocol share the parser and the
-- deflater, which stand in the protocol.
use jetsocket.Prelude.{
  ℕ, Bool, true, false, not, ◌||◌, Option, none, some, List, [], ◌∷◌, if◌then◌else◌,
}
use jetsocket.Exceptions.{Error}
use jetsocket.Codec.Feed.{FrameParser, new_parser}
use jetsocket.Codec.Deflater.{Deflater}
use jetsocket.Transport.Base.{Reply, waits, returns, raises, Environment}
use jetsocket.Transport.Async.State.{WsProtocol, started, shut}
use jetsocket.Transport.Async.Protocol.{
  Callback, after_blank_line, write, pause_writing, resume_writing, connection_lost, data_received,
}

-- `attached` says that `_protocol`, `_asyncio_transport` and `_parser` are set, which `connect` and
-- `_close_transport` do together.
pub record AsyncTransport (C D : Type 0) : Type 0 where
  pub connected : Bool
  pub closing : Bool
  pub attached : Bool
  pub close_code : Option ℕ
  pub close_reason : List ℕ
  pub protocol : WsProtocol C D

-- What the event loop does while a call waits: the callbacks of asyncio, and the end of a timeout.
pub data Event : Type 0 where
  arrives : List ℕ → Event
  loses : Option Error → Event
  pauses : Event
  resumes : Event
  times_out : Event

module _ {C D : Type 0} where
  abbrev pub with_protocol : AsyncTransport C D → WsProtocol C D → AsyncTransport C D
  with_protocol t p = record {
    connected = t.connected;
    closing = t.closing;
    attached = t.attached;
    close_code = t.close_code;
    close_reason = t.close_reason;
    protocol = p;
  }

  abbrev pub with_status : AsyncTransport C D → Bool → Bool → AsyncTransport C D
  with_status t connected closing = record {
    connected = connected;
    closing = closing;
    attached = t.attached;
    close_code = t.close_code;
    close_reason = t.close_reason;
    protocol = t.protocol;
  }

  abbrev pub with_close : AsyncTransport C D → ℕ → List ℕ → AsyncTransport C D
  with_close t code reason = record {
    connected = t.connected;
    closing = t.closing;
    attached = t.attached;
    close_code = some code;
    close_reason = reason;
    protocol = t.protocol;
  }

  abbrev detached : AsyncTransport C D → WsProtocol C D → AsyncTransport C D
  detached t p = record {
    connected = t.connected;
    closing = t.closing;
    attached = false;
    close_code = t.close_code;
    close_reason = t.close_reason;
    protocol = p;
  }

  -- _close_transport
  unfoldable pub close_transport : AsyncTransport C D → AsyncTransport C D
  close_transport t = if t.attached then detached t (shut t.protocol) else t

  abbrev pub not_ready : AsyncTransport C D → Bool
  not_ready t = not t.connected || not t.attached

module _ {C D : Type 0} (env : Environment C D) where
  -- An exception that escapes a callback makes asyncio close its transport.
  abbrev pub after_callback : Callback C D → WsProtocol C D
  after_callback (none, p) = p
  after_callback (some error, p) = shut p

  unfoldable pub happen : Event → WsProtocol C D → WsProtocol C D
  happen (arrives octets) p = after_callback (data_received env octets p)
  happen (loses exc) p = connection_lost exc p
  happen pauses p = pause_writing p
  happen resumes p = resume_writing p
  happen times_out p = p

  -- The end of `connect`: the parser is made, and what stands behind the handshake is received.
  abbrev drained : Option (List ℕ) → WsProtocol C D → Callback C D
  drained none p = (none, p)
  drained (some []) p = (none, p)
  drained (some (x ∷ remaining)) p = data_received env (x ∷ remaining) p

  abbrev pub connected_by :
      AsyncTransport C D → Callback C D → Reply (Unit {0}) × AsyncTransport C D
  connected_by t (some error, p) = (raises error, with_protocol t p)
  connected_by t (none, p) = (returns tt, with_status (with_protocol t p) true t.closing)

  unfoldable pub start_frames :
      Option (Deflater C D) → AsyncTransport C D → Reply (Unit {0}) × AsyncTransport C D
  start_frames deflater t =
      let parser : FrameParser = new_parser env.config.max_frame_size env.config.max_message_size in
      connected_by t (
        drained (after_blank_line t.protocol.handshake_buffer) (started t.protocol parser deflater))

  -- The wait for `_can_write`, and the write.
  unfoldable pub send_when_ready :
      List ℕ
      → List Event
      → AsyncTransport C D
      → Reply (Unit {0}) × (List Event × AsyncTransport C D)
  send_when_ready octets [] t =
      if t.protocol.can_write
      then (returns tt, ([], with_protocol t (write octets t.protocol.random_count t.protocol)))
      else (waits, ([], t))
  send_when_ready octets (event ∷ events) t =
      let later : Reply (Unit {0}) × (List Event × AsyncTransport C D) =
        send_when_ready octets events (with_protocol t (happen event t.protocol)) in
      if t.protocol.can_write
      then (
        returns tt,
        (event ∷ events, with_protocol t (write octets t.protocol.random_count t.protocol)),
      )
      else later
