-- ===== src/Transport/Sync/State.antt =====
-- The state of `SyncTransport` of jetsocket/transport/_sync.py, and the assignments to it.
use jetsocket.Prelude.{ℕ, suc, Bool, true, false, Option, none, some, List, ◌++◌}
use jetsocket.Codec.Opcode.{Frame}
use jetsocket.Codec.Feed.{FrameParser}
use jetsocket.Codec.Deflater.{Deflater}
use jetsocket.Transport.Socket.{Write, Sent}

-- `socket_open` stands for the socket and its selector. `wire` is all that was written, and
-- `random_count` counts the keys drawn.
pub record SyncTransport (C D : Type 0) : Type 0 where
  pub connected : Bool
  pub closing : Bool
  pub socket_open : Bool
  pub parser : Option FrameParser
  pub pending_frames : List Frame
  pub close_code : Option ℕ
  pub close_reason : List ℕ
  pub deflater : Option (Deflater C D)
  pub writes : List Write
  pub wire : List ℕ
  pub random_count : ℕ

abbrev pub has {ℓ} : {A : Type ℓ} → Option A → Bool
has none = false
has (some a) = true

module _ {C D : Type 0} where
  abbrev pub with_deflater : SyncTransport C D → Deflater C D → SyncTransport C D
  with_deflater t d = record {
    connected = t.connected;
    closing = t.closing;
    socket_open = t.socket_open;
    parser = t.parser;
    pending_frames = t.pending_frames;
    close_code = t.close_code;
    close_reason = t.close_reason;
    deflater = some d;
    writes = t.writes;
    wire = t.wire;
    random_count = t.random_count;
  }

  abbrev pub with_parser : SyncTransport C D → FrameParser → SyncTransport C D
  with_parser t p = record {
    connected = t.connected;
    closing = t.closing;
    socket_open = t.socket_open;
    parser = some p;
    pending_frames = t.pending_frames;
    close_code = t.close_code;
    close_reason = t.close_reason;
    deflater = t.deflater;
    writes = t.writes;
    wire = t.wire;
    random_count = t.random_count;
  }

  abbrev pub with_pending : SyncTransport C D → List Frame → SyncTransport C D
  with_pending t frames = record {
    connected = t.connected;
    closing = t.closing;
    socket_open = t.socket_open;
    parser = t.parser;
    pending_frames = frames;
    close_code = t.close_code;
    close_reason = t.close_reason;
    deflater = t.deflater;
    writes = t.writes;
    wire = t.wire;
    random_count = t.random_count;
  }

  abbrev pub with_status : SyncTransport C D → Bool → Bool → SyncTransport C D
  with_status t connected closing = record {
    connected = connected;
    closing = closing;
    socket_open = t.socket_open;
    parser = t.parser;
    pending_frames = t.pending_frames;
    close_code = t.close_code;
    close_reason = t.close_reason;
    deflater = t.deflater;
    writes = t.writes;
    wire = t.wire;
    random_count = t.random_count;
  }

  abbrev pub with_close : SyncTransport C D → ℕ → List ℕ → SyncTransport C D
  with_close t code reason = record {
    connected = t.connected;
    closing = t.closing;
    socket_open = t.socket_open;
    parser = t.parser;
    pending_frames = t.pending_frames;
    close_code = some code;
    close_reason = reason;
    deflater = t.deflater;
    writes = t.writes;
    wire = t.wire;
    random_count = t.random_count;
  }

  abbrev pub after_write : SyncTransport C D → Sent → SyncTransport C D
  after_write t s = record {
    connected = t.connected;
    closing = t.closing;
    socket_open = t.socket_open;
    parser = t.parser;
    pending_frames = t.pending_frames;
    close_code = t.close_code;
    close_reason = t.close_reason;
    deflater = t.deflater;
    writes = s.left;
    wire = t.wire ++ s.wire;
    random_count = t.random_count;
  }

  abbrev pub key_drawn : SyncTransport C D → SyncTransport C D
  key_drawn t = record {
    connected = t.connected;
    closing = t.closing;
    socket_open = t.socket_open;
    parser = t.parser;
    pending_frames = t.pending_frames;
    close_code = t.close_code;
    close_reason = t.close_reason;
    deflater = t.deflater;
    writes = t.writes;
    wire = t.wire;
    random_count = suc t.random_count;
  }

  -- _close_socket
  unfoldable pub close_socket : SyncTransport C D → SyncTransport C D
  close_socket t = record {
    connected = t.connected;
    closing = t.closing;
    socket_open = false;
    parser = none;
    pending_frames = t.pending_frames;
    close_code = t.close_code;
    close_reason = t.close_reason;
    deflater = none;
    writes = t.writes;
    wire = t.wire;
    random_count = t.random_count;
  }
