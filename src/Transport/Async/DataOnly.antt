-- ===== src/Transport/Async/DataOnly.antt =====
-- Close, ping and pong frames never reach the caller of `recv`.
use jetsocket.Prelude.{ℕ, true, Option, none, some, List, [], ◌∷◌, ◌≡◌, refl, subst, if_either}
use jetsocket.Codec.Opcode.{Opcode, continuation, text, binary, close, ping, pong, is_data, Frame}
use jetsocket.Transport.Base.{Reply, waits, returns, raises, Environment}
use jetsocket.Transport.Async.Protocol.{sort}
use jetsocket.Transport.Async.Unpinged.{Unpinged, NoPings, Holds, write-Holds, happen-Holds}
use jetsocket.Transport.Async.Defs.{
  AsyncTransport, Event, arrives, loses, pauses, resumes, times_out, close_transport, not_ready,
}
use jetsocket.Transport.Async.Recv.{
  Received, received, Use, closes, skips, gives, use_of, write_packed, write_close, echo_close,
  handle_close, pop_frames, ready_on, unless_ready, on_event, wait_frames, recv,
}

abbrev IsKept : Use → Type 0
IsKept closes = Unit {0}
IsKept skips = Unit {0}
IsKept gives = ⊥

-- A frame that is no ping and that `recv` gives out is a data frame.
gives-is_data : (op : Opcode) → Unpinged (sort op) → use_of op ≡ gives → is_data op ≡ true
gives-is_data continuation h e = refl
gives-is_data text h e = refl
gives-is_data binary h e = refl
gives-is_data close h e = absurd (subst IsKept e tt)
gives-is_data ping h e = absurd h
gives-is_data pong h e = absurd (subst IsKept e tt)

abbrev pub GivesFrame : Reply Frame → Type 0
GivesFrame waits = Unit {0}
GivesFrame (raises error) = Unit {0}
GivesFrame (returns frame) = is_data frame.opcode ≡ true

-- What holds in each use holds of the choice.
use_either {ℓ κ} :
    {A : Type ℓ} (P : A → Type κ) (u : Use) {x y z : A}
    → (u ≡ closes → P x)
    → (u ≡ skips → P y)
    → (u ≡ gives → P z)
    → P (elim u [ closes ↦ x | skips ↦ y | gives ↦ z ])
use_either P closes f g h = f refl
use_either P skips f g h = g refl
use_either P gives f g h = h refl

module _ {C D : Type 0} where
  abbrev pub Delivers : Received C D → Type 0
  Delivers r = NoPings r.transport.protocol.frames × GivesFrame r.reply

  close_transport-Holds :
      (t : AsyncTransport C D) → Holds t.protocol → Holds (close_transport t).protocol
  unfolding close_transport
  close_transport-Holds t h =
      if_either (λ (u : AsyncTransport C D). Holds u.protocol) t.attached (λ e. h) (λ e. h)

  module _ (env : Environment C D) where
    write_packed-Holds :
        (o : Option (List ℕ)) (t : AsyncTransport C D)
        → Holds t.protocol
        → Holds (write_packed env o t).protocol
    write_packed-Holds none t h = h
    write_packed-Holds (some octets) t h = write-Holds octets _ t.protocol h

    echo_close-Holds :
        (code : ℕ) (reason : List ℕ) (t : AsyncTransport C D)
        → Holds t.protocol
        → Holds (echo_close env code reason t).protocol
    unfolding echo_close write_close
    echo_close-Holds code reason t h =
        if_either (λ (u : AsyncTransport C D). Holds u.protocol) t.closing (λ e. h)
          (λ e.
            if_either (λ (u : AsyncTransport C D). Holds u.protocol) t.attached
              (λ e. write_packed-Holds _ _ h) (λ e. h))

    handle_close-Holds :
        (frame : Frame) (t : AsyncTransport C D)
        → Holds t.protocol
        → Holds (handle_close env frame t).protocol
    unfolding handle_close
    handle_close-Holds frame t h = close_transport-Holds _ (echo_close-Holds _ _ _ h)

    abbrev Awaits : (AsyncTransport C D → Received C D) → Type 0
    Awaits await = (u : AsyncTransport C D) → Holds u.protocol → Delivers (await u)

    pop_frames-Delivers :
        (events : List Event) (await : AsyncTransport C D → Received C D) (frames : List Frame)
        (t : AsyncTransport C D)
        → Awaits await
        → NoPings frames
        → Delivers (pop_frames env events await frames t)
    unfolding pop_frames
    pop_frames-Delivers events await [] t a h = a _ tt
    pop_frames-Delivers events await (frame ∷ frames) t a h =
        use_either Delivers (use_of frame.opcode) (λ e. (handle_close-Holds frame _ h.1, tt))
          (λ e. pop_frames-Delivers events await frames t a h.1)
          (λ e. (h.1, gives-is_data frame.opcode h.0 e))

    ready_on-Delivers :
        (events : List Event) (await : AsyncTransport C D → Received C D) (frames : List Frame)
        (t : AsyncTransport C D)
        → Awaits await
        → NoPings frames
        → Holds t.protocol
        → Delivers (ready_on env events await frames t)
    unfolding ready_on
    ready_on-Delivers events await [] t a f h =
        if_either Delivers t.protocol.connection_lost (λ e. (h, tt)) (λ e. a _ tt)
    ready_on-Delivers events await (frame ∷ frames) t a f h =
        pop_frames-Delivers events await (frame ∷ frames) t a f

    unless_ready-Delivers :
        (events : List Event) (await : AsyncTransport C D → Received C D) (t : AsyncTransport C D)
        → Awaits await
        → Holds t.protocol
        → Delivers (unless_ready env events await t)
    unfolding unless_ready
    unless_ready-Delivers events await t a h =
        if_either Delivers t.protocol.frame_ready
          (λ e. ready_on-Delivers events await t.protocol.frames t a h h) (λ e. a t h)

    on_event-Delivers :
        (events : List Event) (await : AsyncTransport C D → Received C D) (event : Event)
        (t : AsyncTransport C D)
        → Awaits await
        → Holds t.protocol
        → Delivers (on_event env events await event t)
    unfolding on_event
    on_event-Delivers events await times_out t a h = (h, tt)
    on_event-Delivers events await (arrives octets) t a h =
        a _ (happen-Holds env (arrives octets) t.protocol h)
    on_event-Delivers events await (loses exc) t a h =
        a _ (happen-Holds env (loses exc) t.protocol h)
    on_event-Delivers events await pauses t a h = a _ (happen-Holds env pauses t.protocol h)
    on_event-Delivers events await resumes t a h = a _ (happen-Holds env resumes t.protocol h)

    wait_frames-Delivers :
        (events : List Event) (t : AsyncTransport C D)
        → Holds t.protocol
        → Delivers (wait_frames env events t)
    unfolding wait_frames
    wait_frames-Delivers [] t h =
        unless_ready-Delivers [] (received env waits []) t (λ u k. (k, tt)) h
    wait_frames-Delivers (event ∷ events) t h =
        unless_ready-Delivers (event ∷ events) (on_event env events (wait_frames env events) event)
          t
          (λ u.
            on_event-Delivers events (wait_frames env events) event u (wait_frames-Delivers events))
          h

    -- A transport without pings in its queue gives from `recv` a data frame or none, and its queue then
    -- has no pings, whatever events happen meanwhile: close, ping and pong frames never reach the caller.
    pub recv-GivesData :
        (events : List Event) (t : AsyncTransport C D)
        → NoPings t.protocol.frames
        → Delivers (recv env events t)
    unfolding recv
    recv-GivesData events t h =
        if_either Delivers (not_ready t) (λ e. (h, tt))
          (λ e.
            pop_frames-Delivers events (wait_frames env events) t.protocol.frames t
              (wait_frames-Delivers events) h)
