-- ===== src/Codec/Opcode.antt =====
-- `Opcode` and `Frame` of jetsocket/_core.pyx and jetsocket/types.py.
use jetsocket.Prelude.{
  ℕ, ◌+◌, ◌*◌, Bool, Option, none, some, List, [], ltb, leb, ◌==◌, if◌then◌else◌, length, get_or,
  drop,
}

pub data Opcode : Type 0 where
  continuation : Opcode
  text : Opcode
  binary : Opcode
  close : Opcode
  ping : Opcode
  pong : Opcode

abbrev pub value : Opcode → ℕ
value continuation = 0x0
value text = 0x1
value binary = 0x2
value close = 0x8
value ping = 0x9
value pong = 0xA

-- The enum's constructor: none stands for its ValueError.
unfoldable pub opcode_of : ℕ → Option Opcode
opcode_of n =
    if n == 0x0
    then some continuation
    else if n == 0x1
    then some text
    else if n == 0x2
    then some binary
    else if n == 0x8
    then some close
    else if n == 0x9
    then some ping
    else if n == 0xA
    then some pong
    else none

abbrev pub is_control : Opcode → Bool
is_control op = leb 0x8 (value op)

abbrev pub is_data : Opcode → Bool
is_data op = leb (value op) 0x2

pub record Frame : Type 0 where
  pub opcode : Opcode
  pub payload : List ℕ
  pub fin : Bool
  pub rsv1 : Bool
  pub rsv2 : Bool
  pub rsv3 : Bool

pub payload_len : Frame → ℕ
payload_len frame = length frame.payload

-- struct's ">H" of two octets.
abbrev pub big16 : ℕ → ℕ → ℕ
big16 high low = 256 * high + low

unfoldable pub close_code : Frame → Option ℕ
close_code frame =
    if value frame.opcode == 0x8
    then if ltb (length frame.payload) 2
      then none
      else some (big16 (get_or frame.payload 0 0) (get_or frame.payload 1 0))
    else none

-- The octets that the reason is decoded from; the text itself is Python's decoding of them.
unfoldable pub close_reason_octets : Frame → List ℕ
close_reason_octets frame =
    if value frame.opcode == 0x8
    then if leb (length frame.payload) 2 then [] else drop 2 frame.payload
    else []
