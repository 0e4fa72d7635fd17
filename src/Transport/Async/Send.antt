-- ===== src/Transport/Async/Send.antt =====
-- `send`, `send_frame` and `ping` of jetsocket/transport/_async.py.
use jetsocket.Prelude.{
  ℕ, suc, Bool, true, false, not, ◌&&◌, Option, none, some, List, ltb, leb, if◌then◌else◌, length,
}
use jetsocket.Exceptions.{connection_error, value_error}
use jetsocket.Codec.Opcode.{Opcode, text, binary, ping, is_control, Frame}
use jetsocket.Codec.Encode.{encode_frame}
use jetsocket.Codec.Deflater.{Deflater, compress}
use jetsocket.Transport.Base.{Reply, returns, raises, Environment}
use jetsocket.Transport.Async.State.{with_deflater, key_drawn}
use jetsocket.Transport.Async.Protocol.{write}
use jetsocket.Transport.Async.Defs.{
  AsyncTransport, Event, with_protocol, not_ready, send_when_ready,
}

-- What a call leaves: its reply, the events that are still to come, and the object.
abbrev pub Awaited : Type 0 → Type 0 → Type 0
Awaited C D = Reply (Unit {0}) × (List Event × AsyncTransport C D)

module _ {C D : Type 0} (env : Environment C D) where
  -- parser.encode with a mask, the wait for the buffer, and the write.
  unfoldable pub send_encoded :
      Opcode → List ℕ → Bool → Bool → List Event → AsyncTransport C D → Awaited C D
  send_encoded op payload fin rsv1 events t =
      send_when_ready env
        (encode_frame op payload (some (env.random_key t.protocol.random_count)) fin rsv1) events
        (with_protocol t (key_drawn t.protocol))

  -- Compress the payload where a deflater is there and the frame is `eligible`.
  unfoldable pub send_compressed :
      Opcode
      → List ℕ
      → Bool
      → Bool
      → Bool
      → Option (Deflater C D)
      → List Event
      → AsyncTransport C D
      → Awaited C D
  send_compressed op payload fin rsv1 eligible none events t =
      send_encoded op payload fin rsv1 events t
  send_compressed op payload fin rsv1 eligible (some d) events t =
      let packed : List ℕ × Deflater C D = compress env.zlib d payload in
      if eligible
      then send_encoded op (packed.0) fin true events
          (with_protocol t (with_deflater t.protocol (packed.1)))
      else send_encoded op payload fin rsv1 events t

  abbrev pub long_enough : List ℕ → Bool
  long_enough payload = leb env.config.compression_threshold (length payload)

  abbrev pub is_binary : Option Bool → Bool → Bool
  is_binary none is_bytes = is_bytes
  is_binary (some wanted) is_bytes = wanted

  unfoldable pub send : List ℕ → Bool → Option Bool → List Event → AsyncTransport C D → Awaited C D
  send octets is_bytes wanted events t =
      if not_ready t
      then (raises connection_error, (events, t))
      else send_compressed (if is_binary wanted is_bytes then binary else text) octets true false
          (long_enough octets) t.protocol.deflater events t

  unfoldable pub send_frame : Frame → List Event → AsyncTransport C D → Awaited C D
  send_frame frame events t =
      if not_ready t
      then (raises connection_error, (events, t))
      else send_compressed frame.opcode frame.payload frame.fin frame.rsv1
          (not (is_control frame.opcode) && long_enough frame.payload) t.protocol.deflater events t

  -- A ping is written at once.
  unfoldable pub send_ping : List ℕ → AsyncTransport C D → Reply (Unit {0}) × AsyncTransport C D
  send_ping payload t =
      if ltb 125 (length payload)
      then (raises value_error, t)
      else if not_ready t
      then (raises connection_error, t)
      else (
        returns tt,
        with_protocol t (
            write
              (encode_frame ping payload (some (env.random_key t.protocol.random_count)) true false)
              (suc t.protocol.random_count) t.protocol),
      )
