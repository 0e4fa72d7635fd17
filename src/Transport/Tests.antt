-- ===== src/Transport/Tests.antt =====
-- Both transports, on short exchanges.
use jetsocket.Prelude.{
  ℕ, zero, suc, nat_eq, ◌≡◌, refl, arith, Bool, true, false, none, some, List, [], ◌∷◌, inl, inr,
}
use jetsocket.Exceptions.{connection_error}
use jetsocket.Codec.Mask.{mask_rest, mask_words32, mask_words64, apply_mask_c}
use jetsocket.Codec.Opcode.{
  Opcode, text, close, ping, pong, opcode_of, Frame, close_code, close_reason_octets,
}
use jetsocket.Codec.Parse.{
  frame_size, frame_payload, parse_payload, parse_sized, parse_opcode, parse_frame,
}
use jetsocket.Codec.Encode.{size_octets, masked_octets, encode_frame, encode_close}
use jetsocket.Codec.Feed.{FrameParser, new_parser, loop_on, feed_loop, feed}
use jetsocket.Codec.Deflater.{Zlib}
use jetsocket.Transport.Base.{waits, returns, raises, Environment}
use jetsocket.Transport.Socket.{takes, send_all}
use jetsocket.Transport.Sending.{IsTransmission, send_all-IsTransmission}
use jetsocket.Transport.Sync.State.{SyncTransport, close_socket}
use jetsocket.Transport.Sync.Defs.{
  transmit, disconnected, send_close, echo_close, handle_close_frame,
}
use jetsocket.Transport.Sync.Recv as SyncRecv
use jetsocket.Transport.Sync.Recv.{chunk, inflate, handle_frame, handle_frames}
use jetsocket.Transport.Sync.DataOnly.{recv_after_close}
use jetsocket.Transport.Async.State.{WsProtocol, resolved}
use jetsocket.Transport.Async.Delivery.{receive_chunks, receive_chunks-stream}
use jetsocket.Transport.Async.Defs.{AsyncTransport, arrives, loses, with_protocol}
use jetsocket.Transport.Async.Protocol.{connection_lost}
use jetsocket.Transport.Async.Recv as AsyncRecv
use jetsocket.Transport.Async.DataOnly as AsyncData
use jetsocket.Transport.Async.DataOnly.{recv-GivesData}
use jetsocket.Transport.Async.Lost.{recv-connection_lost}
use jetsocket.Transport.Async.Close as AsyncClose
use jetsocket.Transport.Async.Connect as AsyncConnect
use jetsocket.Transport.Async.Connect.{
  Attempt, made, os_error, found, Agreement, resolve_dns, distinct, try_addresses, negotiated,
  after_handshake, handshaken,
}
use jetsocket.Transport.Async.Defs.{start_frames}
use jetsocket.Transport.Async.Protocol.{after_blank_line}
use jetsocket.Transport.Async.Reuse.{connect-close}
use jetsocket.Transport.Sync.Connect as SyncConnect
use jetsocket.Transport.Sync.Connect.{Checks, opened}
use jetsocket.Transport.Sync.Leftover.{Forgets, connect-leftover}
use jetsocket.Exceptions.{Result, ok}

-- A zlib that stores, with window bits for its states.
abbrev stored : Zlib ℕ ℕ
stored = record {
  compressobj = λ (bits : ℕ). bits;
  compress = λ (c : ℕ) (octets : List ℕ). (octets, c);
  flush = λ (c : ℕ). (0x00 ∷ 0x00 ∷ 0xff ∷ 0xff ∷ [], c);
  decompressobj = λ (bits : ℕ). bits;
  decompress = λ (d : ℕ) (octets : List ℕ). (some octets, d);
}

abbrev env : Environment ℕ ℕ
env = record {
  zlib = stored;
  config = record { max_frame_size = 1024; max_message_size = 4096; compression_threshold = 128 };
  random_key = λ (n : ℕ). record { k0 = n; k1 = 1; k2 = 2; k3 = 3 };
  repaired = λ (octets : List ℕ). octets;
}

abbrev parser : FrameParser
parser = new_parser 1024 4096

abbrev frame_of : Opcode → List ℕ → Frame
frame_of op payload = record {
  opcode = op;
  payload = payload;
  fin = true;
  rsv1 = false;
  rsv2 = false;
  rsv3 = false;
}

abbrev sync : SyncTransport ℕ ℕ
sync = record {
  connected = true;
  closing = false;
  socket_open = true;
  parser = some parser;
  pending_frames = [];
  close_code = none;
  close_reason = [];
  deflater = none;
  writes = takes 5 ∷ takes 100 ∷ [];
  wire = [];
  random_count = 0;
}

send_all-IsTransmission_example :
    IsTransmission (1 ∷ 2 ∷ 3 ∷ []) (send_all (takes 2 ∷ takes 2 ∷ []) (1 ∷ 2 ∷ 3 ∷ []))
send_all-IsTransmission_example = send_all-IsTransmission (takes 2 ∷ takes 2 ∷ []) (1 ∷ 2 ∷ 3 ∷ [])

-- Two texts and a close frame in one chunk.
abbrev rest_of_chunk : List ℕ
rest_of_chunk = 0x01 ∷ 97 ∷ 0x81 ∷ 0x01 ∷ 98 ∷ 0x88 ∷ 0x02 ∷ 0x03 ∷ 0xe8 ∷ []

abbrev arrived : List Frame
arrived = frame_of text (97 ∷ []) ∷ frame_of text (98 ∷ []) ∷ frame_of close (0x03 ∷ 0xe8 ∷ []) ∷ []

recv_after_close_example :
    ((SyncRecv.recv env (chunk (0x81 ∷ rest_of_chunk) ∷ []) sync).reply
      ≡ returns (frame_of text (97 ∷ [])))
    × (((SyncRecv.recv env (chunk (0x81 ∷ rest_of_chunk) ∷ []) sync).transport.pending_frames
          ≡ frame_of text (98 ∷ []) ∷ [])
        × (SyncRecv.recv env []
              (SyncRecv.recv env (chunk (0x81 ∷ rest_of_chunk) ∷ []) sync).transport
            ≡ SyncRecv.received env
                (raises connection_error)
                []
                (SyncRecv.recv env (chunk (0x81 ∷ rest_of_chunk) ∷ []) sync).transport))
unfolding feed feed_loop loop_on parse_frame parse_opcode parse_sized parse_payload frame_size
    frame_payload opcode_of handle_frames handle_frame inflate handle_close_frame echo_close
    send_close transmit send_all disconnected close_socket encode_close encode_frame size_octets
    masked_octets apply_mask_c mask_words64 mask_words32 mask_rest close_code close_reason_octets
recv_after_close_example =
    recv_after_close env 0x81 rest_of_chunk [] [] sync parser parser arrived
      (frame_of text (98 ∷ []) ∷ []) 10 (frame_of text (97 ∷ [])) refl refl refl refl refl refl refl

abbrev protocol : List Frame → WsProtocol ℕ ℕ
protocol frames = record {
  transport_open = true;
  parser = some parser;
  deflater = none;
  frames = frames;
  frame_ready = false;
  can_write = true;
  handshake_buffer = [];
  handshake_future = resolved [];
  handshake_done = true;
  connection_lost = false;
  wire = [];
  random_count = 0;
}

abbrev async : List Frame → AsyncTransport ℕ ℕ
async frames = record {
  connected = true;
  closing = false;
  attached = true;
  close_code = none;
  close_reason = [];
  protocol = protocol frames;
}

receive_chunks-stream_example :
    ((receive_chunks env (0x89 ∷ []) ((0x00 ∷ 0x81 ∷ 0x01 ∷ []) ∷ (97 ∷ []) ∷ []) (protocol [])).0
      ≡ none)
    × ((receive_chunks env
          (0x89 ∷ [])
          ((0x00 ∷ 0x81 ∷ 0x01 ∷ []) ∷ (97 ∷ []) ∷ [])
          (protocol [])).1.frames
        ≡ frame_of text (97 ∷ []) ∷ [])
unfolding encode_frame size_octets masked_octets
receive_chunks-stream_example =
    receive_chunks-stream env parser (protocol [])
      ((frame_of ping [], none) ∷ (frame_of text (97 ∷ []), none) ∷ []) (0x89 ∷ [])
      ((0x00 ∷ 0x81 ∷ 0x01 ∷ []) ∷ (97 ∷ []) ∷ []) refl refl refl refl
      (
        (tt, (tt, ((omega arith, (inr (omega arith, refl), (refl, refl))), omega arith))),
        (((omega arith, tt), (tt, ((omega arith, (inl refl, (refl, refl))), omega arith))), tt),
      )
      refl

recv-GivesData_example : AsyncData.Delivers (
    AsyncRecv.recv env
      (arrives (0x8a ∷ 0x00 ∷ []) ∷ arrives (0x81 ∷ 0x01 ∷ 97 ∷ []) ∷ [])
      (async (frame_of pong [] ∷ [])))
recv-GivesData_example =
    recv-GivesData env (arrives (0x8a ∷ 0x00 ∷ []) ∷ arrives (0x81 ∷ 0x01 ∷ 97 ∷ []) ∷ [])
      (async (frame_of pong [] ∷ [])) (tt, tt)

recv-connection_lost_example :
    ((AsyncRecv.recv env (loses none ∷ []) (async (frame_of pong [] ∷ []))).reply
      ≡ raises connection_error)
    × ((AsyncRecv.recv env [] (
          with_protocol
            (async (frame_of pong [] ∷ []))
            (connection_lost none (protocol (frame_of pong [] ∷ []))))).reply
        ≡ waits)
recv-connection_lost_example =
    recv-connection_lost env none [] (async (frame_of pong [] ∷ [])) refl refl (refl, tt)

-- A transport that is idle: closed before, or new.
abbrev idle : Bool → AsyncTransport ℕ ℕ
idle closing = record {
  connected = false;
  closing = closing;
  attached = false;
  close_code = none;
  close_reason = [];
  protocol = protocol [];
}

abbrev tried : ℕ → Attempt ℕ ℕ
tried zero = os_error
tried (suc n) = made (protocol [])

abbrev no_extensions : WsProtocol ℕ ℕ → Result Agreement × WsProtocol ℕ ℕ
no_extensions p = (ok none, p)

connect-close_example :
    ((AsyncConnect.connect env
        (found (0 ∷ 1 ∷ 0 ∷ []))
        tried
        true
        no_extensions
        (idle true)).1.connected
      ≡ true)
    × (AsyncClose.close env 1000 [] []
          (AsyncConnect.connect env (found (0 ∷ 1 ∷ 0 ∷ [])) tried true no_extensions (idle true)).1
        ≡ (
          [],
          (AsyncConnect.connect env
              (found (0 ∷ 1 ∷ 0 ∷ []))
              tried
              true
              no_extensions
              (idle true)).1,
        ))
unfolding AsyncConnect.connect resolve_dns distinct try_addresses handshaken negotiated
    after_handshake start_frames after_blank_line
connect-close_example =
    connect-close env (found (0 ∷ 1 ∷ 0 ∷ [])) tried true no_extensions (idle true) 1000 [] [] refl
      refl

abbrev new_sync : SyncTransport ℕ ℕ
new_sync = record {
  connected = false;
  closing = false;
  socket_open = false;
  parser = none;
  pending_frames = [];
  close_code = none;
  close_reason = [];
  deflater = none;
  writes = takes 9 ∷ [];
  wire = [];
  random_count = 0;
}

abbrev accept_all : Checks ℕ ℕ
accept_all response = ok none

-- A response of one letter and the blank line, and the two octets of a ping behind it.
connect-leftover_example : Forgets env [] new_sync (
    SyncConnect.connect env opened
      (1 ∷ 2 ∷ [])
      accept_all
      (chunk (72 ∷ 13 ∷ 10 ∷ 13 ∷ 10 ∷ 0x89 ∷ 0x00 ∷ []) ∷ [])
      new_sync)
unfolding transmit send_all after_blank_line
connect-leftover_example =
    connect-leftover env (1 ∷ 2 ∷ []) accept_all 72 (13 ∷ 10 ∷ 13 ∷ 10 ∷ 0x89 ∷ 0x00 ∷ [])
      (0x89 ∷ 0x00 ∷ []) [] new_sync none refl refl refl refl
