-- ===== src/Transport/Async/Unpinged.antt =====
-- No event puts a ping frame into the queue.
use jetsocket.Prelude.{
  ℕ, Bool, true, false, Option, none, some, List, [], ◌∷◌, ◌++◌, ◌≡◌, refl, subst, sym, if_either,
}
use jetsocket.Exceptions.{Result, ok, err}
use jetsocket.Codec.Opcode.{Frame}
use jetsocket.Codec.Parse.{
  ParseError, invalid_opcode, reserved_bits, length_overflow, frame_too_large, control_too_large,
  fragmented_control,
}
use jetsocket.Codec.Feed.{FrameParser, Fed, fed, raised, feed}
use jetsocket.Codec.Deflater.{Deflater}
use jetsocket.Transport.Base.{Environment}
use jetsocket.Transport.Async.State.{WsProtocol, with_parser}
use jetsocket.Transport.Async.Protocol.{
  Callback, Sort, pinged, queued, inflatable, sort, write, write_pong, then_also, enqueue_inflated,
  enqueue_data, handle_sort, handle_frames, on_feed_error, on_fed, feed_parser, buffer_handshake,
  data_received, connection_lost, pause_writing, resume_writing,
}
use jetsocket.Transport.Async.Defs.{
  Event, arrives, loses, pauses, resumes, times_out, after_callback, happen,
}

abbrev pub Unpinged : Sort → Type 0
Unpinged pinged = ⊥
Unpinged queued = Unit {0}
Unpinged inflatable = Unit {0}

-- No ping among the frames.
abbrev pub NoPings : List Frame → Type 0
NoPings [] = Unit {0}
NoPings (frame ∷ frames) = Unpinged (sort frame.opcode) × NoPings frames

NoPings-append : (xs ys : List Frame) → NoPings xs → NoPings ys → NoPings (xs ++ ys)
NoPings-append [] ys h k = k
NoPings-append (x ∷ xs) ys h k = (h.0, NoPings-append xs ys h.1 k)

module _ {C D : Type 0} where
  abbrev pub Holds : WsProtocol C D → Type 0
  Holds p = NoPings p.frames

  pub write-Holds :
      (octets : List ℕ) (count : ℕ) (p : WsProtocol C D) → Holds p → Holds (write octets count p)
  unfolding write
  write-Holds octets count p h = if_either Holds p.transport_open (λ e. h) (λ e. h)

  module _ (env : Environment C D) where
    enqueue_inflated-Holds :
        (frame : Frame) (r : Result (List ℕ) × Deflater C D) (p : WsProtocol C D)
        → Unpinged (sort frame.opcode)
        → Holds p
        → Holds (enqueue_inflated env frame r p).1
    enqueue_inflated-Holds frame (ok payload, d) p u h = NoPings-append p.frames _ h (u, tt)
    enqueue_inflated-Holds frame (err error, d) p u h = h

    enqueue_data-Holds :
        (frame : Frame) (b : Bool) (d : Option (Deflater C D)) (p : WsProtocol C D)
        → Unpinged (sort frame.opcode)
        → Holds p
        → Holds (enqueue_data env frame b d p).1
    unfolding enqueue_data
    enqueue_data-Holds frame false d p u h = NoPings-append p.frames _ h (u, tt)
    enqueue_data-Holds frame true none p u h = NoPings-append p.frames _ h (u, tt)
    enqueue_data-Holds frame true (some d) p u h = enqueue_inflated-Holds frame _ p u h

    handle_sort-Holds :
        (frame : Frame) (s : Sort) (p : WsProtocol C D)
        → sort frame.opcode ≡ s
        → Holds p
        → Holds (handle_sort env frame s p).1
    unfolding handle_sort write_pong
    handle_sort-Holds frame pinged p e h = write-Holds _ _ p h
    handle_sort-Holds frame queued p e h =
        NoPings-append p.frames (frame ∷ []) h (subst Unpinged (sym e) tt, tt)
    handle_sort-Holds frame inflatable p e h =
        enqueue_data-Holds frame frame.rsv1 p.deflater p (subst Unpinged (sym e) tt) h

    then_also-Holds :
        (r : Callback C D) (next : WsProtocol C D → Callback C D)
        → Holds r.1
        → ((p : WsProtocol C D) → Holds p → Holds (next p).1)
        → Holds (then_also r next).1
    then_also-Holds (some error, p) next h k = h
    then_also-Holds (none, p) next h k = k p h

    handle_frames-Holds :
        (frames : List Frame) (p : WsProtocol C D) → Holds p → Holds (handle_frames env frames p).1
    unfolding handle_frames
    handle_frames-Holds [] p h = h
    handle_frames-Holds (frame ∷ frames) p h =
        then_also-Holds (handle_sort env frame (sort frame.opcode) p) (handle_frames env frames)
          (handle_sort-Holds frame (sort frame.opcode) p refl h) (handle_frames-Holds frames)

    on_feed_error-Holds :
        (error : ParseError) (p : WsProtocol C D) → Holds p → Holds (on_feed_error env error p).1
    unfolding on_feed_error
    on_feed_error-Holds length_overflow p h = h
    on_feed_error-Holds (invalid_opcode n) p h = h
    on_feed_error-Holds reserved_bits p h = h
    on_feed_error-Holds (frame_too_large n m) p h = h
    on_feed_error-Holds (control_too_large n) p h = h
    on_feed_error-Holds fragmented_control p h = h

    on_fed-Holds : (r : Fed × FrameParser) (p : WsProtocol C D) → Holds p → Holds (on_fed env r p).1
    unfolding on_fed
    on_fed-Holds (raised error, parser) p h = on_feed_error-Holds error (with_parser p parser) h
    on_fed-Holds (fed frames consumed, parser) p h =
        handle_frames-Holds frames (with_parser p parser) h

    feed_parser-Holds :
        (octets : List ℕ) (parser : Option FrameParser) (p : WsProtocol C D)
        → Holds p
        → Holds (feed_parser env octets parser p).1
    unfolding feed_parser
    feed_parser-Holds octets none p h = h
    feed_parser-Holds octets (some parser) p h = on_fed-Holds (feed parser octets) p h

    data_received-Holds :
        (octets : List ℕ) (p : WsProtocol C D) → Holds p → Holds (data_received env octets p).1
    unfolding data_received buffer_handshake
    data_received-Holds octets p h =
        if_either (λ (r : Callback C D). Holds r.1) p.handshake_done
          (λ e. feed_parser-Holds octets p.parser p h) (λ e. h)

    after_callback-Holds : (r : Callback C D) → Holds r.1 → Holds (after_callback env r)
    after_callback-Holds (none, p) h = h
    after_callback-Holds (some error, p) h = h

    pub happen-Holds : (event : Event) (p : WsProtocol C D) → Holds p → Holds (happen env event p)
    unfolding happen connection_lost pause_writing resume_writing
    happen-Holds (arrives octets) p h = after_callback-Holds _ (data_received-Holds octets p h)
    happen-Holds (loses exc) p h = h
    happen-Holds pauses p h = h
    happen-Holds resumes p h = h
    happen-Holds times_out p h = h
