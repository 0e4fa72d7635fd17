-- ===== src/Transport/Async/Protocol.antt =====
-- `_WSProtocol` of jetsocket/transport/_async.py: what asyncio calls.
use jetsocket.Prelude.{
  ℕ, suc, Bool, true, false, ◌&&◌, ◌||◌, Option, none, some, List, [], ◌∷◌, ◌++◌, if◌then◌else◌,
  drop, ◌==◌,
}
use jetsocket.Exceptions.{Error, connection_error, overflow_error, Result, ok, err}
use jetsocket.Codec.Opcode.{Opcode, pong, value, Frame}
use jetsocket.Codec.Parse.{ParseError, length_overflow}
use jetsocket.Codec.Encode.{encode_frame}
use jetsocket.Codec.Feed.{FrameParser, Fed, fed, raised, feed}
use jetsocket.Codec.Deflater.{Deflater, decompress}
use jetsocket.Transport.Base.{Environment}
use jetsocket.Transport.Async.State.{
  Future, absent, pending, resolved, failed, WsProtocol, with_buffered, with_parser, shut, enqueue,
  with_deflater, wrote, with_can_write, lost,
}

-- b"\r\n\r\n" in buffer
abbrev pub starts_with : List ℕ → List ℕ → Bool
starts_with [] octets = true
starts_with (x ∷ xs) [] = false
starts_with (x ∷ xs) (y ∷ ys) = x == y && starts_with xs ys

abbrev pub blank_line : List ℕ
blank_line = 13 ∷ 10 ∷ 13 ∷ 10 ∷ []

-- buffer.find(b"\r\n\r\n"), as what follows the line; none where it is not there.
unfoldable pub after_blank_line : List ℕ → Option (List ℕ)
after_blank_line [] = none
after_blank_line (x ∷ octets) =
    let later = after_blank_line octets in
    if starts_with blank_line (x ∷ octets) then some (drop 3 octets) else later

-- How an opcode is told: PING, then CLOSE or PONG, then the data opcodes.
pub data Sort : Type 0 where
  pinged queued inflatable : Sort

abbrev pub sort : Opcode → Sort
sort op =
    if value op == 0x9
    then pinged
    else if value op == 8 || value op == 10
    then queued
    else inflatable

-- Frame(opcode, payload, fin): the reserved bits are cleared.
abbrev pub inflated : Frame → List ℕ → Frame
inflated frame payload = record {
  opcode = frame.opcode;
  payload = payload;
  fin = frame.fin;
  rsv1 = false;
  rsv2 = false;
  rsv3 = false;
}

-- if the blank line is there and the future is waiting: set_result
unfoldable pub answered : List ℕ → Option (List ℕ) → Future → Future
answered buffer (some after) pending = resolved buffer
answered buffer (some after) absent = absent
answered buffer (some after) (resolved r) = resolved r
answered buffer (some after) (failed e) = failed e
answered buffer none future = future

-- if the future is waiting: set_exception
unfoldable pub broken_off : Option Error → Future → Future
broken_off none pending = failed connection_error
broken_off (some error) pending = failed error
broken_off exc absent = absent
broken_off exc (resolved r) = resolved r
broken_off exc (failed e) = failed e

-- What a callback leaves: the exception that it raised, if any, and the protocol.
abbrev pub Callback : Type 0 → Type 0 → Type 0
Callback C D = Option Error × WsProtocol C D

module _ {C D : Type 0} where
  -- asyncio's transport.write
  unfoldable pub write : List ℕ → ℕ → WsProtocol C D → WsProtocol C D
  write octets count p = if p.transport_open then wrote p octets count else wrote p [] count

  abbrev pub then_also : Callback C D → (WsProtocol C D → Callback C D) → Callback C D
  then_also (some error, p) next = (some error, p)
  then_also (none, p) next = next p

  unfoldable pub connection_lost : Option Error → WsProtocol C D → WsProtocol C D
  connection_lost exc p = lost p (broken_off exc p.handshake_future)

  unfoldable pub pause_writing : WsProtocol C D → WsProtocol C D
  pause_writing p = with_can_write p false

  unfoldable pub resume_writing : WsProtocol C D → WsProtocol C D
  resume_writing p = with_can_write p true

  unfoldable pub buffer_handshake : List ℕ → WsProtocol C D → WsProtocol C D
  buffer_handshake octets p =
      let buffer : List ℕ = p.handshake_buffer ++ octets in
      with_buffered p buffer (answered buffer (after_blank_line buffer) p.handshake_future)

module _ {C D : Type 0} (env : Environment C D) where
  unfoldable pub write_pong : List ℕ → WsProtocol C D → WsProtocol C D
  write_pong payload p =
      write (encode_frame pong payload (some (env.random_key p.random_count)) true false)
        (suc p.random_count) p

  abbrev pub enqueue_inflated :
      Frame → Result (List ℕ) × Deflater C D → WsProtocol C D → Callback C D
  enqueue_inflated frame (ok payload, d) p =
      (none, enqueue (with_deflater p d) (inflated frame payload))
  enqueue_inflated frame (err error, d) p = (some error, with_deflater p d)

  unfoldable pub enqueue_data : Frame → Bool → Option (Deflater C D) → WsProtocol C D → Callback C D
  enqueue_data frame false d p = (none, enqueue p frame)
  enqueue_data frame true none p = (none, enqueue p frame)
  enqueue_data frame true (some d) p =
      enqueue_inflated frame (decompress env.zlib d frame.payload) p

  -- One turn of the loop over the frames.
  unfoldable pub handle_sort : Frame → Sort → WsProtocol C D → Callback C D
  handle_sort frame pinged p = (none, write_pong frame.payload p)
  handle_sort frame queued p = (none, enqueue p frame)
  handle_sort frame inflatable p = enqueue_data frame frame.rsv1 p.deflater p

  unfoldable pub handle_frames : List Frame → WsProtocol C D → Callback C D
  handle_frames [] p = (none, p)
  handle_frames (frame ∷ frames) p =
      then_also (handle_sort frame (sort frame.opcode) p) (handle_frames frames)

  -- A ValueError of `feed` closes the transport. An OverflowError is none, and escapes.
  unfoldable pub on_feed_error : ParseError → WsProtocol C D → Callback C D
  on_feed_error length_overflow p = (some overflow_error, p)
  on_feed_error error p = (none, shut p)

  unfoldable pub on_fed : Fed × FrameParser → WsProtocol C D → Callback C D
  on_fed (raised error, parser) p = on_feed_error error (with_parser p parser)
  on_fed (fed frames consumed, parser) p = handle_frames frames (with_parser p parser)

  unfoldable pub feed_parser : List ℕ → Option FrameParser → WsProtocol C D → Callback C D
  feed_parser octets none p = (none, p)
  feed_parser octets (some parser) p = on_fed (feed parser octets) p

  unfoldable pub data_received : List ℕ → WsProtocol C D → Callback C D
  data_received octets p =
      if p.handshake_done then feed_parser octets p.parser p else (none, buffer_handshake octets p)
