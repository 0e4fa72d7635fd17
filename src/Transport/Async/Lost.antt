-- ===== src/Transport/Async/Lost.antt =====
-- The loss of a connection, seen by a `recv` that waits and by one that comes later.
use jetsocket.Prelude.{
  Bool, true, not, ◌||◌, Option, List, [], ◌∷◌, ◌≡◌, refl, ap, ap₂, ◌∙◌, if_false,
}
use jetsocket.Exceptions.{Error, connection_error}
use jetsocket.Codec.Opcode.{Frame}
use jetsocket.Transport.Base.{waits, returns, raises, Environment}
use jetsocket.Transport.Async.Protocol.{connection_lost}
use jetsocket.Transport.Async.Defs.{AsyncTransport, Event, loses, with_protocol, not_ready, happen}
use jetsocket.Transport.Async.Recv.{
  Received, closes, skips, gives, use_of, Use, received, handle_close, with_queue, without_ready,
  pop_frames, ready_on, unless_ready, on_event, wait_frames, recv,
}

-- Only pong frames, which `recv` skips.
abbrev pub AllSkipped : List Frame → Type 0
AllSkipped [] = Unit {0}
AllSkipped (frame ∷ frames) = (use_of frame.opcode ≡ skips) × AllSkipped frames

module _ {C D : Type 0} (env : Environment C D) where
  pop_frames-skips :
      (events : List Event) (await : AsyncTransport C D → Received C D) (frames : List Frame)
      (t : AsyncTransport C D)
      → AllSkipped frames
      → pop_frames env events await frames t ≡ await (without_ready env [] t)
  unfolding pop_frames
  pop_frames-skips events await [] t h = refl
  pop_frames-skips events await (frame ∷ frames) t h =
      ap
        (λ (u : Use). elim u [
          | closes ↦
              received env (raises connection_error) events
                (handle_close env frame (with_queue env frames t))
          | skips ↦ pop_frames env events await frames t
          | gives ↦ received env (returns frame) events (with_queue env frames t)
        ])
        (h.0)
      ∙ pop_frames-skips events await frames t (h.1)

  recv-skips :
      (events : List Event) (t : AsyncTransport C D)
      → t.connected ≡ true
      → t.attached ≡ true
      → AllSkipped t.protocol.frames
      → recv env events t ≡ wait_frames env events (without_ready env [] t)
  unfolding recv
  recv-skips events t c a h =
      if_false (not_ready t) _ _ (ap₂ (λ (b d : Bool). not b || not d) c a)
      ∙ pop_frames-skips events (wait_frames env events) t.protocol.frames t h

  -- A wait with no frames and the event cleared, in which the connection is lost.
  wait_frames_lost :
      (exc : Option Error) (events : List Event) (t : AsyncTransport C D)
      → (wait_frames env events
          (with_protocol t (connection_lost exc (without_ready env [] t).protocol))).reply
        ≡ raises connection_error
  unfolding wait_frames connection_lost unless_ready ready_on
  wait_frames_lost exc [] t = refl
  wait_frames_lost exc (event ∷ events) t = refl

  -- On a connected transport with nothing but pong frames queued, a connection that is lost while
  -- `recv` waits makes it raise a connection error; if it was lost before, and nothing happens any
  -- more, `recv` waits for ever.
  pub recv-connection_lost :
      (exc : Option Error) (events : List Event) (t : AsyncTransport C D)
      → t.connected ≡ true
      → t.attached ≡ true
      → AllSkipped t.protocol.frames
      → ((recv env (loses exc ∷ events) t).reply ≡ raises connection_error)
        × ((recv env [] (with_protocol t (connection_lost exc t.protocol))).reply ≡ waits)
  unfolding wait_frames happen connection_lost ready_on unless_ready on_event
  recv-connection_lost exc events t c a h = (
    ap (λ (r : Received C D). r.reply) (recv-skips (loses exc ∷ events) t c a h)
        ∙ wait_frames_lost exc events t,
    ap (λ (r : Received C D). r.reply)
        (recv-skips [] (with_protocol t (connection_lost exc t.protocol)) c a h),
  )
