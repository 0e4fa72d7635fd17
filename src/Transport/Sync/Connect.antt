-- ===== src/Transport/Sync/Connect.antt =====
-- `connect` and `_perform_handshake` of jetsocket/transport/_sync.py. The URI is parsed; how the socket
-- and TLS come about, the octets of the request and what the checks make of the response are arguments.
use jetsocket.Prelude.{ℕ, Bool, true, false, Option, none, some, List, [], ◌∷◌, ◌++◌, if◌then◌else◌}
use jetsocket.Exceptions.{connection_error, handshake_error, timeout_error, Result, ok, err}
use jetsocket.Codec.Feed.{FrameParser, new_parser}
use jetsocket.Codec.Deflater.{Deflater}
use jetsocket.Transport.Base.{Reply, waits, returns, raises, Environment}
use jetsocket.Transport.Sync.State.{SyncTransport, close_socket}
use jetsocket.Transport.Sync.Defs.{transmit}
use jetsocket.Transport.Sync.Recv.{Read, chunk, silence, blocked, broken}
use jetsocket.Transport.Async.Protocol.{after_blank_line}

-- socket.create_connection and, for wss, wrap_socket.
pub data Opening : Type 0 where
  opened : Opening
  timed_out : Opening
  os_error : Opening
  ssl_error : Opening

-- A reply, the reads that are still to come, and the object.
abbrev pub Stepped : Type 0 → Type 0 → Type 0 → Type 0
Stepped A C D = Reply A × (List Read × SyncTransport C D)

abbrev pub is_there {ℓ} : {A : Type ℓ} → Option A → Bool
is_there none = false
is_there (some a) = true

-- while b"\r\n\r\n" not in response_data
unfoldable pub read_on :
    (List ℕ → Reply (List ℕ) × List Read) → List Read → Read → List ℕ → Reply (List ℕ) × List Read
read_on again reads silence response = (raises timeout_error, reads)
read_on again reads broken response = (raises connection_error, reads)
read_on again reads blocked response = (raises (handshake_error none), reads)
read_on again reads (chunk []) response = (raises (handshake_error none), reads)
read_on again reads (chunk (x ∷ octets)) response = again (response ++ x ∷ octets)

unfoldable pub read_response : List Read → List ℕ → Reply (List ℕ) × List Read
read_response [] response =
    (if is_there (after_blank_line response) then returns response else waits, [])
read_response (read ∷ reads) response =
    let turn : Reply (List ℕ) × List Read = read_on (read_response reads) reads read response in
    if is_there (after_blank_line response) then (returns response, read ∷ reads) else turn

-- What the checks of the response give: an exception, or the deflater that was agreed on, if any.
abbrev pub Checks : Type 0 → Type 0 → Type 0
Checks C D = List ℕ → Result (Option (Deflater C D))

module _ {C D : Type 0} where
  abbrev pub with_fields :
      SyncTransport C D
      → Bool
      → Bool
      → Option FrameParser
      → Option (Deflater C D)
      → SyncTransport C D
  with_fields t connected socket_open parser deflater = record {
    connected = connected;
    closing = t.closing;
    socket_open = socket_open;
    parser = parser;
    pending_frames = t.pending_frames;
    close_code = t.close_code;
    close_reason = t.close_reason;
    deflater = deflater;
    writes = t.writes;
    wire = t.wire;
    random_count = t.random_count;
  }

  -- An agreed deflater is set; without one `_deflater` stays as it is.
  abbrev pub set_deflater : Option (Deflater C D) → SyncTransport C D → SyncTransport C D
  set_deflater none t = t
  set_deflater (some d) t = with_fields t t.connected t.socket_open t.parser (some d)

  unfoldable pub checked :
      List Read → Result (Option (Deflater C D)) → SyncTransport C D → Stepped (Unit {0}) C D
  checked reads (err error) t = (raises error, (reads, t))
  checked reads (ok deflater) t = (returns tt, (reads, set_deflater deflater t))

  unfoldable pub on_response :
      Checks C D → Reply (List ℕ) × List Read → SyncTransport C D → Stepped (Unit {0}) C D
  on_response checks (waits, reads) t = (waits, (reads, t))
  on_response checks (raises error, reads) t = (raises error, (reads, t))
  on_response checks (returns response, reads) t = checked reads (checks response) t

  unfoldable pub on_request :
      Checks C D → List Read → Reply (Unit {0}) × SyncTransport C D → Stepped (Unit {0}) C D
  on_request checks reads (waits, t) = (waits, (reads, t))
  on_request checks reads (raises error, t) = (raises error, (reads, t))
  on_request checks reads (returns u, t) = on_response checks (read_response reads []) t

  -- _perform_handshake
  unfoldable pub perform_handshake :
      List ℕ → Checks C D → List Read → SyncTransport C D → Stepped (Unit {0}) C D
  perform_handshake request checks reads t = on_request checks reads (transmit request t)

module _ {C D : Type 0} (env : Environment C D) where
  -- The parser is made, and the transport is connected; an exception closes the socket.
  unfoldable pub after_handshake : Stepped (Unit {0}) C D → Stepped (Unit {0}) C D
  after_handshake (waits, rest) = (waits, rest)
  after_handshake (raises error, (reads, t)) = (raises error, (reads, close_socket t))
  after_handshake (returns u, (reads, t)) =
      let parser : FrameParser = new_parser env.config.max_frame_size env.config.max_message_size in
      (returns tt, (reads, with_fields t true t.socket_open (some parser) t.deflater))

  unfoldable pub open_socket :
      Opening → List ℕ → Checks C D → List Read → SyncTransport C D → Stepped (Unit {0}) C D
  open_socket timed_out request checks reads t = (raises timeout_error, (reads, t))
  open_socket os_error request checks reads t = (raises connection_error, (reads, t))
  open_socket ssl_error request checks reads t = (raises connection_error, (reads, close_socket t))
  open_socket opened request checks reads t =
      after_handshake (
        perform_handshake request checks reads (with_fields t t.connected true t.parser t.deflater))

  unfoldable pub connect :
      Opening → List ℕ → Checks C D → List Read → SyncTransport C D → Stepped (Unit {0}) C D
  connect opening request checks reads t =
      if t.connected
      then (raises connection_error, (reads, t))
      else open_socket opening request checks reads t
