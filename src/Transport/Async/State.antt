-- ===== src/Transport/Async/State.antt =====
-- The state of `_WSProtocol` of jetsocket/transport/_async.py and the assignments to it. The two events are Booleans, and
-- `wire` is all that was written to asyncio's transport; a write to a closed one is
-- dropped.
use jetsocket.Prelude.{ℕ, suc, Bool, true, false, Option, some, List, [], ◌∷◌, ◌++◌}
use jetsocket.Exceptions.{Error}
use jetsocket.Codec.Opcode.{Frame}
use jetsocket.Codec.Feed.{FrameParser}
use jetsocket.Codec.Deflater.{Deflater}

-- The handshake's future: not made yet, waiting, or done with a response or an exception.
pub data Future : Type 0 where
  absent : Future
  pending : Future
  resolved : List ℕ → Future
  failed : Error → Future

pub record WsProtocol (C D : Type 0) : Type 0 where
  pub transport_open : Bool
  pub parser : Option FrameParser
  pub deflater : Option (Deflater C D)
  pub frames : List Frame
  pub frame_ready : Bool
  pub can_write : Bool
  pub handshake_buffer : List ℕ
  pub handshake_future : Future
  pub handshake_done : Bool
  pub connection_lost : Bool
  pub wire : List ℕ
  pub random_count : ℕ

module _ {C D : Type 0} where
  abbrev pub with_buffered : WsProtocol C D → List ℕ → Future → WsProtocol C D
  with_buffered p octets future = record {
    transport_open = p.transport_open;
    parser = p.parser;
    deflater = p.deflater;
    frames = p.frames;
    frame_ready = p.frame_ready;
    can_write = p.can_write;
    handshake_buffer = octets;
    handshake_future = future;
    handshake_done = p.handshake_done;
    connection_lost = p.connection_lost;
    wire = p.wire;
    random_count = p.random_count;
  }

  abbrev pub with_parser : WsProtocol C D → FrameParser → WsProtocol C D
  with_parser p parser = record {
    transport_open = p.transport_open;
    parser = some parser;
    deflater = p.deflater;
    frames = p.frames;
    frame_ready = p.frame_ready;
    can_write = p.can_write;
    handshake_buffer = p.handshake_buffer;
    handshake_future = p.handshake_future;
    handshake_done = p.handshake_done;
    connection_lost = p.connection_lost;
    wire = p.wire;
    random_count = p.random_count;
  }

  abbrev pub shut : WsProtocol C D → WsProtocol C D
  shut p = record {
    transport_open = false;
    parser = p.parser;
    deflater = p.deflater;
    frames = p.frames;
    frame_ready = p.frame_ready;
    can_write = p.can_write;
    handshake_buffer = p.handshake_buffer;
    handshake_future = p.handshake_future;
    handshake_done = p.handshake_done;
    connection_lost = p.connection_lost;
    wire = p.wire;
    random_count = p.random_count;
  }

  -- self._frames.append(frame); self._frame_ready.set()
  abbrev pub enqueue : WsProtocol C D → Frame → WsProtocol C D
  enqueue p frame = record {
    transport_open = p.transport_open;
    parser = p.parser;
    deflater = p.deflater;
    frames = p.frames ++ frame ∷ [];
    frame_ready = true;
    can_write = p.can_write;
    handshake_buffer = p.handshake_buffer;
    handshake_future = p.handshake_future;
    handshake_done = p.handshake_done;
    connection_lost = p.connection_lost;
    wire = p.wire;
    random_count = p.random_count;
  }

  abbrev pub with_deflater : WsProtocol C D → Deflater C D → WsProtocol C D
  with_deflater p d = record {
    transport_open = p.transport_open;
    parser = p.parser;
    deflater = some d;
    frames = p.frames;
    frame_ready = p.frame_ready;
    can_write = p.can_write;
    handshake_buffer = p.handshake_buffer;
    handshake_future = p.handshake_future;
    handshake_done = p.handshake_done;
    connection_lost = p.connection_lost;
    wire = p.wire;
    random_count = p.random_count;
  }

  abbrev pub with_frames : WsProtocol C D → List Frame → Bool → WsProtocol C D
  with_frames p frames ready = record {
    transport_open = p.transport_open;
    parser = p.parser;
    deflater = p.deflater;
    frames = frames;
    frame_ready = ready;
    can_write = p.can_write;
    handshake_buffer = p.handshake_buffer;
    handshake_future = p.handshake_future;
    handshake_done = p.handshake_done;
    connection_lost = p.connection_lost;
    wire = p.wire;
    random_count = p.random_count;
  }

  abbrev pub wrote : WsProtocol C D → List ℕ → ℕ → WsProtocol C D
  wrote p octets count = record {
    transport_open = p.transport_open;
    parser = p.parser;
    deflater = p.deflater;
    frames = p.frames;
    frame_ready = p.frame_ready;
    can_write = p.can_write;
    handshake_buffer = p.handshake_buffer;
    handshake_future = p.handshake_future;
    handshake_done = p.handshake_done;
    connection_lost = p.connection_lost;
    wire = p.wire ++ octets;
    random_count = count;
  }

  abbrev pub with_can_write : WsProtocol C D → Bool → WsProtocol C D
  with_can_write p b = record {
    transport_open = p.transport_open;
    parser = p.parser;
    deflater = p.deflater;
    frames = p.frames;
    frame_ready = p.frame_ready;
    can_write = b;
    handshake_buffer = p.handshake_buffer;
    handshake_future = p.handshake_future;
    handshake_done = p.handshake_done;
    connection_lost = p.connection_lost;
    wire = p.wire;
    random_count = p.random_count;
  }

  abbrev pub lost : WsProtocol C D → Future → WsProtocol C D
  lost p future = record {
    transport_open = p.transport_open;
    parser = p.parser;
    deflater = p.deflater;
    frames = p.frames;
    frame_ready = true;
    can_write = p.can_write;
    handshake_buffer = p.handshake_buffer;
    handshake_future = future;
    handshake_done = p.handshake_done;
    connection_lost = true;
    wire = p.wire;
    random_count = p.random_count;
  }

  abbrev pub started : WsProtocol C D → FrameParser → Option (Deflater C D) → WsProtocol C D
  started p parser deflater = record {
    transport_open = p.transport_open;
    parser = some parser;
    deflater = deflater;
    frames = p.frames;
    frame_ready = p.frame_ready;
    can_write = p.can_write;
    handshake_buffer = p.handshake_buffer;
    handshake_future = p.handshake_future;
    handshake_done = true;
    connection_lost = p.connection_lost;
    wire = p.wire;
    random_count = p.random_count;
  }

  abbrev pub key_drawn : WsProtocol C D → WsProtocol C D
  key_drawn p = record {
    transport_open = p.transport_open;
    parser = p.parser;
    deflater = p.deflater;
    frames = p.frames;
    frame_ready = p.frame_ready;
    can_write = p.can_write;
    handshake_buffer = p.handshake_buffer;
    handshake_future = p.handshake_future;
    handshake_done = p.handshake_done;
    connection_lost = p.connection_lost;
    wire = p.wire;
    random_count = suc p.random_count;
  }
