-- ===== src/Transport/Sync/Defs.antt =====
-- `SyncTransport` of jetsocket/transport/_sync.py: `send`, `send_frame`, `ping` and the handling of
-- control frames. Python's text is seen by its UTF-8 octets.
use jetsocket.Prelude.{
  ℕ, Bool, true, false, not, ◌&&◌, ◌||◌, Option, none, some, List, ltb, leb, if◌then◌else◌, length,
}
use jetsocket.Exceptions.{connection_error, value_error, struct_error}
use jetsocket.Codec.Opcode.{
  Opcode, text, binary, ping, pong, is_control, Frame, close_code, close_reason_octets,
}
use jetsocket.Codec.Encode.{encode_frame, encode_close}
use jetsocket.Codec.Deflater.{Deflater, compress}
use jetsocket.Transport.Base.{
  Reply, returns, raises, next_statement, suppressed, Environment, code_or_no_status,
}
use jetsocket.Transport.Socket.{Sent, send_all}
use jetsocket.Transport.Sync.State.{
  SyncTransport, has, with_deflater, with_status, with_close, after_write, key_drawn, close_socket,
}

module _ {C D : Type 0} where
  abbrev written : SyncTransport C D → Sent → Reply (Unit {0}) × SyncTransport C D
  written t s = (s.reply, after_write t s)

  -- _send_all
  unfoldable pub transmit : List ℕ → SyncTransport C D → Reply (Unit {0}) × SyncTransport C D
  transmit octets t =
      if t.socket_open then written t (send_all t.writes octets) else (raises connection_error, t)

  -- The end of `_handle_close_frame` and of `close`.
  unfoldable pub disconnected : SyncTransport C D → Reply (Unit {0}) × SyncTransport C D
  disconnected t = (returns tt, close_socket (with_status t false t.closing))

  -- not self._connected or self._parser is None
  abbrev pub not_ready : SyncTransport C D → Bool
  not_ready t = not t.connected || not (has t.parser)

module _ {C D : Type 0} (env : Environment C D) where
  -- parser.encode with a mask, and _send_all.
  unfoldable pub send_encoded :
      Opcode → List ℕ → Bool → Bool → SyncTransport C D → Reply (Unit {0}) × SyncTransport C D
  send_encoded op payload fin rsv1 t =
      transmit (encode_frame op payload (some (env.random_key t.random_count)) fin rsv1)
        (key_drawn t)

  -- Compress the payload where a deflater is there and the frame is `eligible`.
  unfoldable pub send_compressed :
      Opcode
      → List ℕ
      → Bool
      → Bool
      → Bool
      → Option (Deflater C D)
      → SyncTransport C D
      → Reply (Unit {0}) × SyncTransport C D
  send_compressed op payload fin rsv1 eligible none t = send_encoded op payload fin rsv1 t
  send_compressed op payload fin rsv1 eligible (some d) t =
      let packed : List ℕ × Deflater C D = compress env.zlib d payload in
      if eligible
      then send_encoded op (packed.0) fin true (with_deflater t (packed.1))
      else send_encoded op payload fin rsv1 t

  abbrev pub long_enough : List ℕ → Bool
  long_enough payload = leb env.config.compression_threshold (length payload)

  abbrev pub is_binary : Option Bool → Bool → Bool
  is_binary none is_bytes = is_bytes
  is_binary (some wanted) is_bytes = wanted

  unfoldable pub send :
      List ℕ → Bool → Option Bool → SyncTransport C D → Reply (Unit {0}) × SyncTransport C D
  send octets is_bytes wanted t =
      if not_ready t
      then (raises connection_error, t)
      else send_compressed (if is_binary wanted is_bytes then binary else text) octets true false
          (long_enough octets) t.deflater t

  unfoldable pub send_frame : Frame → SyncTransport C D → Reply (Unit {0}) × SyncTransport C D
  send_frame frame t =
      if not_ready t
      then (raises connection_error, t)
      else send_compressed frame.opcode frame.payload frame.fin frame.rsv1
          (not (is_control frame.opcode) && long_enough frame.payload) t.deflater t

  unfoldable pub send_ping : List ℕ → SyncTransport C D → Reply (Unit {0}) × SyncTransport C D
  send_ping payload t =
      if ltb 125 (length payload)
      then (raises value_error, t)
      else if not_ready t
      then (raises connection_error, t)
      else send_encoded ping payload true false t

  -- _handle_ping_frame
  unfoldable pub handle_ping_frame :
      Frame → SyncTransport C D → Reply (Unit {0}) × SyncTransport C D
  handle_ping_frame frame t =
      if has t.parser
      then suppressed (send_encoded pong frame.payload true false t)
      else (returns tt, t)

  abbrev pub send_packed :
      Option (List ℕ) → SyncTransport C D → Reply (Unit {0}) × SyncTransport C D
  send_packed none t = (raises struct_error, t)
  send_packed (some octets) t = transmit octets (key_drawn t)

  -- parser.encode_close with a mask, and _send_all.
  unfoldable pub send_close : ℕ → List ℕ → SyncTransport C D → Reply (Unit {0}) × SyncTransport C D
  send_close code reason t =
      send_packed (encode_close code reason (some (env.random_key t.random_count))) t

  unfoldable pub echo_close : ℕ → List ℕ → SyncTransport C D → Reply (Unit {0}) × SyncTransport C D
  echo_close code reason t =
      if t.closing
      then (returns tt, t)
      else if has t.parser
      then suppressed (send_close code reason (with_status t t.connected true))
      else (returns tt, with_status t t.connected true)

  -- _handle_close_frame. The code is two octets, so that `encode_close` does not raise there.
  unfoldable pub handle_close_frame :
      Frame → SyncTransport C D → Reply (Unit {0}) × SyncTransport C D
  handle_close_frame frame t =
      let code : ℕ = code_or_no_status (close_code frame) in
      let reason : List ℕ = env.repaired (close_reason_octets frame) in
      next_statement (echo_close code reason (with_close t code reason))
        (λ (u : Unit {0}) (closed : SyncTransport C D). disconnected closed)
