-- ===== src/Codec/Feed.antt =====
-- The parser of jetsocket/_core.pyx: `feed` and `reset`. The loop of `feed` runs on fuel, one unit for
-- each octet in the buffer; every frame consumes at least two.
use jetsocket.Prelude.{ℕ, zero, suc, ◌+◌, Option, none, some, List, [], ◌∷◌, ◌++◌, length, drop}
use jetsocket.Codec.Opcode.{Opcode, Frame}
use jetsocket.Codec.Parse.{ParseError, Parse, need_more, bad, parsed, parse_frame}

-- A state of the loop in which it has ended: the frames so far, the octets they took, what is left
-- of the buffer, and the error that ended it, if one did.
pub record Loop : Type 0 where
  pub frames : List Frame
  pub total_consumed : ℕ
  pub buffer : List ℕ
  pub error : Option ParseError

-- frames.append, total_consumed += consumed.
abbrev pub add_frame : Frame → ℕ → Loop → Loop
add_frame frame consumed rest = record {
  frames = frame ∷ rest.frames;
  total_consumed = consumed + rest.total_consumed;
  buffer = rest.buffer;
  error = rest.error;
}

abbrev pub ended : List ℕ → Option ParseError → Loop
ended buf error = record { frames = []; total_consumed = 0; buffer = buf; error = error }

unfoldable pub loop_on : (List ℕ → Loop) → List ℕ → Parse → Loop
loop_on again buf need_more = ended buf none
loop_on again buf (bad error) = ended buf (some error)
loop_on again buf (parsed frame consumed) = add_frame frame consumed (again (drop consumed buf))

unfoldable pub feed_loop : ℕ → ℕ → List ℕ → Loop
feed_loop zero max_frame_size buf = ended buf none
feed_loop (suc fuel) max_frame_size buf =
    loop_on (feed_loop fuel max_frame_size) buf (parse_frame max_frame_size buf)

-- What a call of `feed` gives: an error loses the frames parsed before it.
pub data Fed : Type 0 where
  fed : List Frame → ℕ → Fed
  raised : ParseError → Fed

abbrev pub outcome_on : List Frame → ℕ → Option ParseError → Fed
outcome_on frames total_consumed none = fed frames total_consumed
outcome_on frames total_consumed (some error) = raised error

abbrev pub outcome : Loop → Fed
outcome loop = outcome_on loop.frames loop.total_consumed loop.error

pub record FrameParser : Type 0 where
  pub max_frame_size : ℕ
  pub max_message_size : ℕ
  pub buffer : List ℕ
  pub message_buffer : List ℕ
  pub message_opcode : Option Opcode

abbrev pub new_parser : ℕ → ℕ → FrameParser
new_parser max_frame_size max_message_size = record {
  max_frame_size = max_frame_size;
  max_message_size = max_message_size;
  buffer = [];
  message_buffer = [];
  message_opcode = none;
}

abbrev pub with_buffer : FrameParser → List ℕ → FrameParser
with_buffer parser buf = record {
  max_frame_size = parser.max_frame_size;
  max_message_size = parser.max_message_size;
  buffer = buf;
  message_buffer = parser.message_buffer;
  message_opcode = parser.message_opcode;
}

unfoldable pub feed : FrameParser → List ℕ → Fed × FrameParser
feed parser octets =
    let buf : List ℕ = parser.buffer ++ octets in
    let loop : Loop = feed_loop (length buf) parser.max_frame_size buf in
    (outcome loop, with_buffer parser loop.buffer)

unfoldable pub reset : FrameParser → FrameParser
reset parser = new_parser parser.max_frame_size parser.max_message_size
