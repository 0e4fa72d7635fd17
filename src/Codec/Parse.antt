-- ===== src/Codec/Parse.antt =====
-- `_parse_frame` of jetsocket/_core.pyx: one frame from the front of the buffer. The size of a
-- frame is not wrapped: it is exact for a `max_frame_size` below 2 ^ 63 - 14.
use Prim.Native.Nat.{bit_and}
use jetsocket.Prelude.{
  ℕ, ◌+◌, ◌-◌, ◌*◌, ◌^◌, Bool, false, ◌||◌, not, Option, none, some, List, ltb, leb, ◌==◌,
  if◌then◌else◌, length, get_or, take, drop,
}
use jetsocket.Codec.Mask.{apply_mask_c}
use jetsocket.Codec.Opcode.{Opcode, opcode_of, is_control, Frame, big16}

-- The ValueError's and the OverflowError of a length that Py_ssize_t does not hold.
pub data ParseError : Type 0 where
  invalid_opcode : ℕ → ParseError
  reserved_bits : ParseError
  length_overflow : ParseError
  frame_too_large : ℕ → ℕ → ParseError
  control_too_large : ℕ → ParseError
  fragmented_control : ParseError

pub data Parse : Type 0 where
  need_more : Parse
  bad : ParseError → Parse
  parsed : Frame → ℕ → Parse

-- What the length octets say: `header_size` and `payload_len`.
pub data Size : Type 0 where
  short : Size
  overflow : Size
  sized : ℕ → ℕ → Size

abbrev pub octet : List ℕ → ℕ → ℕ
octet buf i = get_or buf i 0

abbrev pub has_bit : ℕ → ℕ → Bool
has_bit byte mask = not (bit_and byte mask == 0)

-- struct's ">Q" of buf[2:10].
abbrev pub big64 : List ℕ → ℕ
big64 buf =
    2 ^ 48 * big16 (octet buf 2) (octet buf 3)
    + 2 ^ 32 * big16 (octet buf 4) (octet buf 5)
    + 2 ^ 16 * big16 (octet buf 6) (octet buf 7)
    + big16 (octet buf 8) (octet buf 9)

unfoldable pub frame_size : List ℕ → ℕ → ℕ → Size
frame_size buf payload_len_byte mask_size =
    if leb payload_len_byte 125
    then sized (2 + mask_size) payload_len_byte
    else if payload_len_byte == 126
    then if ltb (length buf) 4
      then short
      else sized (4 + mask_size) (big16 (octet buf 2) (octet buf 3))
    else if ltb (length buf) 10
    then short
    else if ltb (big64 buf) (2 ^ 63)
    then sized (10 + mask_size) (big64 buf)
    else overflow

unfoldable pub frame_payload : List ℕ → Bool → ℕ → ℕ → List ℕ
frame_payload buf masked header_size payload_len =
    if masked
    then apply_mask_c (take payload_len (drop header_size buf)) (record {
      k0 = octet buf (header_size - 4);
      k1 = octet buf (header_size - 3);
      k2 = octet buf (header_size - 2);
      k3 = octet buf (header_size - 1);
    })
    else take payload_len (drop header_size buf)

unfoldable pub parse_payload : List ℕ → Opcode → Bool → Bool → Bool → ℕ → ℕ → Parse
parse_payload buf op fin rsv1 masked header_size payload_len =
    if ltb (length buf) (header_size + payload_len)
    then need_more
    else parsed
        (record {
          opcode = op;
          payload = frame_payload buf masked header_size payload_len;
          fin = fin;
          rsv1 = rsv1;
          rsv2 = false;
          rsv3 = false;
        })
        (header_size + payload_len)

unfoldable pub parse_sized : ℕ → List ℕ → Opcode → Bool → Bool → Bool → Size → Parse
parse_sized max_frame_size buf op fin rsv1 masked short = need_more
parse_sized max_frame_size buf op fin rsv1 masked overflow = bad length_overflow
parse_sized max_frame_size buf op fin rsv1 masked (sized header_size payload_len) =
    if ltb max_frame_size payload_len
    then bad (frame_too_large payload_len max_frame_size)
    else if is_control op
    then if ltb 125 payload_len
      then bad (control_too_large payload_len)
      else if fin
      then parse_payload buf op fin rsv1 masked header_size payload_len
      else bad fragmented_control
    else parse_payload buf op fin rsv1 masked header_size payload_len

unfoldable pub parse_opcode : ℕ → List ℕ → ℕ → ℕ → Option Opcode → Parse
parse_opcode max_frame_size buf first_byte second_byte none =
    bad (invalid_opcode (bit_and first_byte 0x0F))
parse_opcode max_frame_size buf first_byte second_byte (some op) =
    if has_bit first_byte 0x20 || has_bit first_byte 0x10
    then bad reserved_bits
    else parse_sized max_frame_size buf op (has_bit first_byte 0x80) (has_bit first_byte 0x40)
        (has_bit second_byte 0x80)
        (frame_size buf (bit_and second_byte 0x7F) (if has_bit second_byte 0x80 then 4 else 0))

unfoldable pub parse_frame : ℕ → List ℕ → Parse
parse_frame max_frame_size buf =
    if ltb (length buf) 2
    then need_more
    else parse_opcode max_frame_size buf (octet buf 0) (octet buf 1)
        (opcode_of (bit_and (octet buf 0) 0x0F))
