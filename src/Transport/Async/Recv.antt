-- ===== src/Transport/Async/Recv.antt =====
-- `recv` of jetsocket/transport/_async.py. While it waits, the events of a script happen, one after
-- another; where the script ends, it waits for ever.
use jetsocket.Prelude.{ℕ, suc, true, false, Option, none, some, List, [], ◌∷◌, ◌==◌, if◌then◌else◌}
use jetsocket.Exceptions.{connection_error, timeout_error}
use jetsocket.Codec.Opcode.{Opcode, value, Frame, close_code, close_reason_octets}
use jetsocket.Codec.Encode.{encode_close}
use jetsocket.Transport.Base.{Reply, waits, returns, raises, Environment, code_or_no_status}
use jetsocket.Transport.Async.State.{with_frames}
use jetsocket.Transport.Async.Protocol.{write}
use jetsocket.Transport.Async.Defs.{
  AsyncTransport, Event, times_out, with_protocol, with_status, with_close, close_transport,
  not_ready, happen,
}

pub record Received (C D : Type 0) : Type 0 where
  pub reply : Reply Frame
  pub left : List Event
  pub transport : AsyncTransport C D

-- What `recv` does with a frame of the queue.
pub data Use : Type 0 where
  closes skips gives : Use

abbrev pub use_of : Opcode → Use
use_of op = if value op == 0x8 then closes else if value op == 0xA then skips else gives

module _ {C D : Type 0} (env : Environment C D) where
  abbrev pub received : Reply Frame → List Event → AsyncTransport C D → Received C D
  received reply left t = record { reply = reply; left = left; transport = t }

  -- A close frame that is refused by struct.pack would raise: a received code has two octets.
  abbrev pub write_packed : Option (List ℕ) → AsyncTransport C D → AsyncTransport C D
  write_packed none t = t
  write_packed (some octets) t =
      with_protocol t (write octets (suc t.protocol.random_count) t.protocol)

  unfoldable pub write_close : ℕ → List ℕ → AsyncTransport C D → AsyncTransport C D
  write_close code reason t =
      write_packed (encode_close code reason (some (env.random_key t.protocol.random_count))) t

  unfoldable pub echo_close : ℕ → List ℕ → AsyncTransport C D → AsyncTransport C D
  echo_close code reason t =
      if t.closing
      then t
      else if t.attached
      then write_close code reason (with_status t t.connected true)
      else with_status t t.connected true

  -- The close frame's code and reason are kept, it is echoed unless a close was sent before, and the
  -- connection ends.
  unfoldable pub handle_close : Frame → AsyncTransport C D → AsyncTransport C D
  handle_close frame t =
      let code : ℕ = code_or_no_status (close_code frame) in
      let reason : List ℕ = env.repaired (close_reason_octets frame) in
      let echoed : AsyncTransport C D = echo_close code reason (with_close t code reason) in
      close_transport (with_status echoed false echoed.closing)

  abbrev pub without_ready : List Frame → AsyncTransport C D → AsyncTransport C D
  without_ready frames t = with_protocol t (with_frames t.protocol frames false)

  abbrev pub with_queue : List Frame → AsyncTransport C D → AsyncTransport C D
  with_queue frames t = with_protocol t (with_frames t.protocol frames t.protocol.frame_ready)

  -- proto._frames.pop(0), until a frame is given, the connection ends or the queue is empty; then the
  -- event is cleared and the wait begins.
  unfoldable pub pop_frames :
      List Event
      → (AsyncTransport C D → Received C D)
      → List Frame
      → AsyncTransport C D
      → Received C D
  pop_frames events await [] t = await (without_ready [] t)
  pop_frames events await (frame ∷ frames) t =
      let later : Received C D = pop_frames events await frames t in
      elim (use_of frame.opcode) [
        | closes ↦
            received (raises connection_error) events (handle_close frame (with_queue frames t))
        | skips ↦ later
        | gives ↦ received (returns frame) events (with_queue frames t)
      ]

  -- After the wait: the connection is lost, or frames are there, or else the wait goes on.
  unfoldable pub ready_on :
      List Event
      → (AsyncTransport C D → Received C D)
      → List Frame
      → AsyncTransport C D
      → Received C D
  ready_on events await [] t =
      if t.protocol.connection_lost
      then received (raises connection_error) events (with_status t false t.closing)
      else await (without_ready [] t)
  ready_on events await (frame ∷ frames) t = pop_frames events await (frame ∷ frames) t

  -- `_frame_ready.wait()`, which returns at once where the event is set.
  unfoldable pub unless_ready :
      List Event → (AsyncTransport C D → Received C D) → AsyncTransport C D → Received C D
  unless_ready events await t =
      if t.protocol.frame_ready then ready_on events await t.protocol.frames t else await t

  -- A timeout ends the wait only with a read_timeout set: a script with one is of such a transport.
  unfoldable pub on_event :
      List Event → (AsyncTransport C D → Received C D) → Event → AsyncTransport C D → Received C D
  on_event events await times_out t = received (raises timeout_error) events t
  on_event events await event t = await (with_protocol t (happen env event t.protocol))

  -- The wait for `_frame_ready`, over the events that happen.
  unfoldable pub wait_frames : List Event → AsyncTransport C D → Received C D
  wait_frames [] t = unless_ready [] (received waits []) t
  wait_frames (event ∷ events) t =
      unless_ready (event ∷ events) (on_event events (wait_frames events) event) t

  unfoldable pub recv : List Event → AsyncTransport C D → Received C D
  recv events t =
      if not_ready t
      then received (raises connection_error) events t
      else pop_frames events (wait_frames events) t.protocol.frames t
