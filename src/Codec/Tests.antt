-- ===== src/Codec/Tests.antt =====
-- Masking, parsing and feeding, on short octets.
use jetsocket.Prelude.{
  ℕ, ◌≡◌, refl, arith, true, false, Option, none, some, List, [], ◌∷◌, length, get_or, inl, inr,
}
use Prim.Native.Nat.{bit_xor}
use jetsocket.Codec.Bytes.{IsBytes}
use jetsocket.Codec.Mask.{
  Key, IsKey, mask_rest, mask_words32, mask_words64, apply_mask_c, apply_mask,
}
use jetsocket.Codec.Words.{apply_mask-octets}
use jetsocket.Codec.Opcode.{text, ping, opcode_of, Frame}
use jetsocket.Codec.Parse.{
  bad, invalid_opcode, reserved_bits, fragmented_control, frame_size, parse_sized, parse_opcode,
  parse_payload, frame_payload, parse_frame,
}
use jetsocket.Codec.Encode.{size_octets, masked_octets, encode_frame}
use jetsocket.Codec.Feed.{FrameParser, new_parser, loop_on, feed_loop, feed}
use jetsocket.Codec.Fuel.{IsDone, feed_loop-IsDone}
use jetsocket.Codec.Stream.{
  given, Matches, Begins, feed_chunks, stream, feed_chunks-concat, feed_chunks-stream,
}
use jetsocket.Codec.Chunks.{run}

abbrev key : Key
key = record { k0 = 0x37; k1 = 0xfa; k2 = 0x21; k3 = 0x3d }

key-IsKey : IsKey key
key-IsKey = (omega arith, (omega arith, (omega arith, omega arith)))

-- Thirteen octets: one step of eight, one of four and one octet.
abbrev octets : List ℕ
octets = 1 ∷ 2 ∷ 3 ∷ 4 ∷ 5 ∷ 6 ∷ 7 ∷ 8 ∷ 250 ∷ 251 ∷ 252 ∷ 253 ∷ 255 ∷ []

octets-IsBytes : IsBytes octets
octets-IsBytes = (
  omega arith,
  (
    omega arith,
    (
      omega arith,
      (
        omega arith,
        (
          omega arith,
          (
            omega arith,
            (
              omega arith,
              (
                omega arith,
                (omega arith, (omega arith, (omega arith, (omega arith, (omega arith, tt))))),
              ),
            ),
          ),
        ),
      ),
    ),
  ),
)

apply_mask-octets_example :
    (length (apply_mask octets key) ≡ 13) × (get_or (apply_mask octets key) 12 0 ≡ bit_xor 255 0x37)
apply_mask-octets_example = apply_mask-octets octets key 12 octets-IsBytes key-IsKey (omega arith)

abbrev hello : Frame
hello = record {
  opcode = text;
  payload = 0x48 ∷ 0x65 ∷ 0x6c ∷ 0x6c ∷ 0x6f ∷ [];
  fin = true;
  rsv1 = false;
  rsv2 = false;
  rsv3 = false;
}

abbrev empty_ping : Frame
empty_ping = record {
  opcode = ping;
  payload = [];
  fin = true;
  rsv1 = false;
  rsv2 = false;
  rsv3 = false;
}

-- The masked "Hello" of RFC 6455 section 5.7, and a bare ping.
abbrev sent : List (Frame × Option Key)
sent = (hello, some key) ∷ (empty_ping, none) ∷ []

wire :
    stream sent
    ≡ 0x81 ∷ 0x85 ∷ 0x37 ∷ 0xfa ∷ 0x21 ∷ 0x3d ∷ 0x7f ∷ 0x9f ∷ 0x4d ∷ 0x51 ∷ 0x58 ∷ 0x89 ∷ 0x00 ∷ []
unfolding encode_frame size_octets masked_octets apply_mask_c mask_words64 mask_words32 mask_rest
wire = refl

abbrev small_parser : FrameParser
small_parser = new_parser 1024 4096

-- A ping, and then a frame whose opcode is none: the ping is given before the error.
abbrev bad_chunks : List (List ℕ)
bad_chunks = (0x00 ∷ 0x83 ∷ []) ∷ (0x00 ∷ []) ∷ []

feed_chunks-concat_example :
    let r = feed_chunks small_parser (0x89 ∷ []) bad_chunks in
    Matches r.0 (feed small_parser (0x89 ∷ 0x00 ∷ 0x83 ∷ 0x00 ∷ [])).0
    × Begins r.0.frames (run 1024 (0x89 ∷ 0x00 ∷ 0x83 ∷ 0x00 ∷ [])).frames
feed_chunks-concat_example = feed_chunks-concat small_parser (0x89 ∷ []) bad_chunks

given_before_error : (feed_chunks small_parser (0x89 ∷ []) bad_chunks).0.frames ≡ empty_ping ∷ []
unfolding feed_chunks feed feed_loop loop_on parse_frame parse_opcode parse_sized frame_size
    opcode_of parse_payload frame_payload
given_before_error = refl

feed_chunks-stream_example :
    (feed_chunks small_parser
      (0x81 ∷ 0x85 ∷ 0x37 ∷ [])
      ((0xfa ∷ 0x21 ∷ 0x3d ∷ 0x7f ∷ 0x9f ∷ 0x4d ∷ 0x51 ∷ []) ∷ (0x58 ∷ 0x89 ∷ 0x00 ∷ []) ∷ [])).0
    ≡ given (hello ∷ empty_ping ∷ []) 13
unfolding encode_frame size_octets masked_octets apply_mask_c mask_words64 mask_words32 mask_rest
feed_chunks-stream_example =
    feed_chunks-stream small_parser sent (0x81 ∷ 0x85 ∷ 0x37 ∷ [])
      ((0xfa ∷ 0x21 ∷ 0x3d ∷ 0x7f ∷ 0x9f ∷ 0x4d ∷ 0x51 ∷ []) ∷ (0x58 ∷ 0x89 ∷ 0x00 ∷ []) ∷ []) refl
      (
        (
          (omega arith, (omega arith, (omega arith, (omega arith, (omega arith, tt))))),
          (key-IsKey, ((omega arith, (inl refl, (refl, refl))), omega arith)),
        ),
        ((tt, (tt, ((omega arith, (inr (omega arith, refl), (refl, refl))), omega arith))), tt),
      )
      refl

feed_loop-IsDone_example :
    IsDone 1024 (0x89 ∷ 0x00 ∷ 0x83 ∷ 0x00 ∷ []) (feed_loop 4 1024 (0x89 ∷ 0x00 ∷ 0x83 ∷ 0x00 ∷ []))
feed_loop-IsDone_example = feed_loop-IsDone 4 1024 (0x89 ∷ 0x00 ∷ 0x83 ∷ 0x00 ∷ []) (omega arith)

-- Errors: a reserved opcode, a reserved bit, and a control frame that is not final.
errors :
    (parse_frame 1024 (0x83 ∷ 0x00 ∷ []) ≡ bad (invalid_opcode 3))
    × ((parse_frame 1024 (0xa1 ∷ 0x00 ∷ []) ≡ bad reserved_bits)
        × (parse_frame 1024 (0x09 ∷ 0x00 ∷ []) ≡ bad fragmented_control))
unfolding parse_frame parse_opcode parse_sized frame_size opcode_of
errors = (refl, (refl, refl))
