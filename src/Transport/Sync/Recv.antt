-- ===== src/Transport/Sync/Recv.antt =====
-- `recv` of jetsocket/transport/_sync.py. What arrives is a script of
-- reads, one for each call of `_recv_with_timeout`; where it ends, the call waits.
use jetsocket.Prelude.{
  ℕ, Bool, true, false, Option, none, some, List, [], ◌∷◌, ◌++◌, if◌then◌else◌, ◌==◌,
}
use jetsocket.Exceptions.{
  Error, connection_error, timeout_error, protocol_error, overflow_error, runtime_error, Result, ok,
  err,
}
use jetsocket.Codec.Opcode.{Opcode, value, Frame}
use jetsocket.Codec.Parse.{ParseError, length_overflow}
use jetsocket.Codec.Feed.{FrameParser, Fed, fed, raised, feed}
use jetsocket.Codec.Deflater.{Deflater, decompress}
use jetsocket.Transport.Base.{Reply, waits, returns, raises, next_statement, Environment}
use jetsocket.Transport.Sync.State.{
  SyncTransport, with_deflater, with_parser, with_pending, with_status,
}
use jetsocket.Transport.Sync.Defs.{not_ready, handle_ping_frame, handle_close_frame}

-- Octets, or none at the end of the stream; the selector's timeout; a BlockingIOError; another
-- OSError.
pub data Read : Type 0 where
  chunk : List ℕ → Read
  silence : Read
  blocked : Read
  broken : Read

-- The ValueError's of `feed` become protocol errors. An OverflowError is no ValueError.
abbrev pub feed_error : ParseError → Error
feed_error length_overflow = overflow_error
feed_error error = protocol_error

-- What a frame's opcode calls for.
pub data Kind : Type 0 where
  close_kind ping_kind pong_kind data_kind : Kind

abbrev pub kind : Opcode → Kind
kind op =
    if value op == 0x8
    then close_kind
    else if value op == 0x9
    then ping_kind
    else if value op == 0xA
    then pong_kind
    else data_kind

-- Frame(opcode, payload, fin): the reserved bits are cleared.
abbrev pub inflated : Frame → List ℕ → Frame
inflated frame payload = record {
  opcode = frame.opcode;
  payload = payload;
  fin = frame.fin;
  rsv1 = false;
  rsv2 = false;
  rsv3 = false;
}

-- What a call leaves besides the object: the reads that are still to come.
pub record Received (C D : Type 0) : Type 0 where
  pub reply : Reply Frame
  pub left : List Read
  pub transport : SyncTransport C D

module _ {C D : Type 0} (env : Environment C D) where
  -- Decompress if RSV1 is set and a deflater is there.
  abbrev pub inflate_with :
      Frame → Result (List ℕ) × Deflater C D → SyncTransport C D → Reply Frame × SyncTransport C D
  inflate_with frame (ok payload, d) t = (returns (inflated frame payload), with_deflater t d)
  inflate_with frame (err error, d) t = (raises error, with_deflater t d)

  unfoldable pub inflate :
      Frame → Bool → Option (Deflater C D) → SyncTransport C D → Reply Frame × SyncTransport C D
  inflate frame false d t = (returns frame, t)
  inflate frame true none t = (returns frame, t)
  inflate frame true (some d) t = inflate_with frame (decompress env.zlib d frame.payload) t

  abbrev pub keep :
      Frame → Reply (List Frame) × SyncTransport C D → Reply (List Frame) × SyncTransport C D
  keep frame (waits, t) = (waits, t)
  keep frame (raises error, t) = (raises error, t)
  keep frame (returns frames, t) = (returns (frame ∷ frames), t)

  -- The loop over the frames of one chunk, which gives its data frames.
  unfoldable pub handle_frame :
      Frame
      → Kind
      → (SyncTransport C D → Reply (List Frame) × SyncTransport C D)
      → SyncTransport C D
      → Reply (List Frame) × SyncTransport C D
  handle_frame frame close_kind rest t =
      next_statement (handle_close_frame env frame t) (λ (u : Unit {0}). rest)
  handle_frame frame ping_kind rest t =
      next_statement (handle_ping_frame env frame t) (λ (u : Unit {0}). rest)
  handle_frame frame pong_kind rest t = rest t
  handle_frame frame data_kind rest t =
      next_statement (inflate frame frame.rsv1 t.deflater t)
        (λ (f : Frame) (u : SyncTransport C D). keep f (rest u))

  unfoldable pub handle_frames :
      List Frame → SyncTransport C D → Reply (List Frame) × SyncTransport C D
  handle_frames [] t = (returns [], t)
  handle_frames (frame ∷ frames) t = handle_frame frame (kind frame.opcode) (handle_frames frames) t

  abbrev pub received : Reply Frame → List Read → SyncTransport C D → Received C D
  received reply left t = record { reply = reply; left = left; transport = t }

  -- Return the first data frame and queue the rest, or read on.
  unfoldable pub deliver :
      (SyncTransport C D → Received C D)
      → List Read
      → Reply (List Frame) × SyncTransport C D
      → Received C D
  deliver again left (waits, t) = received waits left t
  deliver again left (raises error, t) = received (raises error) left t
  deliver again left (returns [], t) = again t
  deliver again left (returns (frame ∷ frames), t) =
      received (returns frame) left (with_pending t (t.pending_frames ++ frames))

  unfoldable pub on_fed :
      (SyncTransport C D → Received C D)
      → List Read
      → SyncTransport C D
      → Fed × FrameParser
      → Received C D
  on_fed again left t (raised error, parser) =
      received (raises (feed_error error)) left (with_parser t parser)
  on_fed again left t (fed frames consumed, parser) =
      deliver again left (handle_frames frames (with_parser t parser))

  -- One turn of the loop of `recv`.
  unfoldable pub on_read :
      (SyncTransport C D → Received C D)
      → List Read
      → Read
      → Option FrameParser
      → SyncTransport C D
      → Received C D
  on_read again left silence parser t = received (raises timeout_error) left t
  on_read again left broken parser t = received (raises connection_error) left t
  on_read again left blocked parser t =
      received (raises connection_error) left (with_status t false t.closing)
  on_read again left (chunk []) parser t =
      received (raises connection_error) left (with_status t false t.closing)
  on_read again left (chunk (x ∷ octets)) none t = received (raises runtime_error) left t
  on_read again left (chunk (x ∷ octets)) (some parser) t =
      on_fed again left t (feed parser (x ∷ octets))

  unfoldable pub recv_loop : List Read → SyncTransport C D → Received C D
  recv_loop [] t = received (if t.socket_open then waits else raises connection_error) [] t
  recv_loop (read ∷ reads) t =
      let turn : Received C D = on_read (recv_loop reads) reads read t.parser t in
      if t.socket_open then turn else received (raises connection_error) (read ∷ reads) t

  unfoldable pub next_pending : List Frame → List Read → SyncTransport C D → Received C D
  next_pending [] reads t = recv_loop reads t
  next_pending (frame ∷ frames) reads t = received (returns frame) reads (with_pending t frames)

  unfoldable pub recv : List Read → SyncTransport C D → Received C D
  recv reads t =
      if not_ready t
      then received (raises connection_error) reads t
      else next_pending t.pending_frames reads t
