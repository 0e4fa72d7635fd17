-- ===== src/Transport/Async/Delivery.antt =====
-- From the wire to the queue of `_WSProtocol`: frames that the peer encodes, in whatever chunks they
-- arrive.
use jetsocket.Prelude.{
  ℕ, Bool, true, false, Option, none, some, List, [], ◌∷◌, ◌++◌, append_assoc, append-nil, ◌≡◌,
  refl, sym, ap, subst, ◌∙◌, if_true, if_either,
}
use jetsocket.Codec.Mask.{Key}
use jetsocket.Codec.Opcode.{Frame}
use jetsocket.Codec.Parse.{ParseError}
use jetsocket.Codec.Feed.{FrameParser, Fed, fed, raised, feed}
use jetsocket.Codec.Deflater.{Deflater}
use jetsocket.Codec.Stream.{
  Given, given_by, chain, feed_chunks, concat, stream, frames_of, AllSendable, feed_chunks-stream,
}
use jetsocket.Transport.Base.{Environment}
use jetsocket.Transport.Async.State.{WsProtocol, with_parser}
use jetsocket.Transport.Async.Protocol.{
  Callback, Sort, pinged, queued, inflatable, sort, write, write_pong, then_also, enqueue_data,
  handle_sort, handle_frames, on_fed, feed_parser, data_received,
}

-- The frames that reach the queue: all but pings.
abbrev pub queued_by : Sort → Frame → List Frame → List Frame
queued_by pinged frame frames = frames
queued_by queued frame frames = frame ∷ frames
queued_by inflatable frame frames = frame ∷ frames

abbrev pub without_pings : List Frame → List Frame
without_pings [] = []
without_pings (frame ∷ frames) = queued_by (sort frame.opcode) frame (without_pings frames)

module _ {C D : Type 0} where
  -- A protocol whose handshake is done, with this parser and without compression.
  abbrev pub IsReady : FrameParser → WsProtocol C D → Type 0
  IsReady parser p = (p.handshake_done ≡ true) × ((p.parser ≡ some parser) × (p.deflater ≡ none))

  -- A callback that raised nothing, kept the protocol ready, and queued these frames.
  abbrev pub Queues : FrameParser → WsProtocol C D → List Frame → Callback C D → Type 0
  Queues parser p frames (some error, q) = ⊥
  Queues parser p frames (none, q) = IsReady parser q × (q.frames ≡ p.frames ++ frames)

  module _ (env : Environment C D) where
    -- The callbacks of the chunks, one after another.
    unfoldable pub receive_chunks : List ℕ → List (List ℕ) → WsProtocol C D → Callback C D
    receive_chunks chunk [] p = data_received env chunk p
    receive_chunks chunk (next ∷ chunks) p =
        then_also (data_received env chunk p) (receive_chunks next chunks)

    Queues-then :
        (parser later : FrameParser) (p : WsProtocol C D) (frames more : List Frame)
        (r : Callback C D) (next : WsProtocol C D → Callback C D)
        → Queues parser p frames r
        → ((q : WsProtocol C D) → IsReady parser q → Queues later q more (next q))
        → Queues later p (frames ++ more) (then_also r next)
    Queues-then parser later p frames more (some error, q) next h k = absurd h
    Queues-then parser later p frames more (none, q) next h k =
        ahead later p q frames more (next q) h.1 (k q h.0)
      where
        ahead :
            (later : FrameParser) (p q : WsProtocol C D) (frames more : List Frame)
            (r : Callback C D)
            → q.frames ≡ p.frames ++ frames
            → Queues later q more r
            → Queues later p (frames ++ more) r
        ahead later p q frames more (some error, u) e h = h
        ahead later p q frames more (none, u) e h =
            (h.0, h.1 ∙ ap (λ (l : List Frame). l ++ more) e ∙ append_assoc p.frames frames more)

    enqueue_data-Queues :
        (parser : FrameParser) (frame : Frame) (b : Bool) (d : Option (Deflater C D))
        (p : WsProtocol C D)
        → IsReady parser p
        → d ≡ none
        → Queues parser p (frame ∷ []) (enqueue_data env frame b d p)
    unfolding enqueue_data
    enqueue_data-Queues parser frame false d p h e = (h, refl)
    enqueue_data-Queues parser frame true d p h e =
        subst
          (λ (o : Option (Deflater C D)).
            Queues parser p (frame ∷ []) (enqueue_data env frame true o p))
          (sym e) (h, refl)

    handle_sort-Queues :
        (parser : FrameParser) (frame : Frame) (s : Sort) (p : WsProtocol C D)
        → IsReady parser p
        → Queues parser p (queued_by s frame []) (handle_sort env frame s p)
    unfolding handle_sort write_pong write
    handle_sort-Queues parser frame pinged p h =
        if_either (λ (q : WsProtocol C D). Queues parser p [] (none, q)) p.transport_open
          (λ e. (h, sym (append-nil p.frames))) (λ e. (h, sym (append-nil p.frames)))
    handle_sort-Queues parser frame queued p h = (h, refl)
    handle_sort-Queues parser frame inflatable p h =
        enqueue_data-Queues parser frame frame.rsv1 p.deflater p h h.1.1

    queued_by-append :
        (s : Sort) (frame : Frame) (frames : List Frame)
        → queued_by s frame [] ++ frames ≡ queued_by s frame frames
    queued_by-append pinged frame frames = refl
    queued_by-append queued frame frames = refl
    queued_by-append inflatable frame frames = refl

    handle_frames-Queues :
        (parser : FrameParser) (frames : List Frame) (p : WsProtocol C D)
        → IsReady parser p
        → Queues parser p (without_pings frames) (handle_frames env frames p)
    unfolding handle_frames
    handle_frames-Queues parser [] p h = (h, sym (append-nil p.frames))
    handle_frames-Queues parser (frame ∷ frames) p h =
        subst (λ (l : List Frame). Queues parser p l (handle_frames env (frame ∷ frames) p))
          (queued_by-append (sort frame.opcode) frame (without_pings frames))
          (Queues-then parser parser p (queued_by (sort frame.opcode) frame [])
            (without_pings frames) (handle_sort env frame (sort frame.opcode) p)
            (handle_frames env frames) (handle_sort-Queues parser frame (sort frame.opcode) p h)
            (handle_frames-Queues parser frames))

    -- What the frames of a feed become; an error is no such outcome.
    abbrev Outcome : WsProtocol C D → Fed × FrameParser → Callback C D → Type 0
    Outcome p (raised error, later) r = Unit {0}
    Outcome p (fed frames consumed, later) r = Queues later p (without_pings frames) r

    on_fed-Outcome :
        (parser : FrameParser) (r : Fed × FrameParser) (p : WsProtocol C D)
        → IsReady parser p
        → Outcome p r (on_fed env r p)
    unfolding on_fed
    on_fed-Outcome parser (raised error, later) p h = tt
    on_fed-Outcome parser (fed frames consumed, later) p h =
        handle_frames-Queues later frames (with_parser p later) (h.0, (refl, h.1.1))

    data_received-Outcome :
        (parser : FrameParser) (octets : List ℕ) (p : WsProtocol C D)
        → IsReady parser p
        → Outcome p (feed parser octets) (data_received env octets p)
    unfolding data_received feed_parser
    data_received-Outcome parser octets p h =
        subst (Outcome p (feed parser octets))
          (sym (
            if_true p.handshake_done _ _ (h.0)
            ∙ ap (λ (o : Option FrameParser). feed_parser env octets o p) (h.1.0)))
          (on_fed-Outcome parser (feed parser octets) p h)

    without_pings-append :
        (xs ys : List Frame) → without_pings (xs ++ ys) ≡ without_pings xs ++ without_pings ys
    without_pings-append [] ys = refl
    without_pings-append (x ∷ xs) ys =
        ap (queued_by (sort x.opcode) x) (without_pings-append xs ys) ∙ sort_append (sort x.opcode)
      where
        sort_append :
            (s : Sort)
            → queued_by s x (without_pings xs ++ without_pings ys)
              ≡ queued_by s x (without_pings xs) ++ without_pings ys
        sort_append pinged = refl
        sort_append queued = refl
        sort_append inflatable = refl

    -- The same of several feeds.
    abbrev BecameOn :
        WsProtocol C D → FrameParser → List Frame → Option ParseError → Callback C D → Type 0
    BecameOn p later frames none r = Queues later p (without_pings frames) r
    BecameOn p later frames (some error) r = Unit {0}

    abbrev Became : WsProtocol C D → Given × FrameParser → Callback C D → Type 0
    Became p s r = BecameOn p s.1 s.0.frames s.0.error r

    given_by-Became :
        (p : WsProtocol C D) (s : Fed × FrameParser) (r : Callback C D)
        → Outcome p s r
        → Became p (given_by s.0, s.1) r
    given_by-Became p (raised error, later) r h = tt
    given_by-Became p (fed frames consumed, later) r h = h

    after-Became :
        (p : WsProtocol C D) (later last : FrameParser) (frames more : List Frame)
        (o : Option ParseError) (callback : Callback C D) (next : WsProtocol C D → Callback C D)
        → Queues later p (without_pings frames) callback
        → ((q : WsProtocol C D) → IsReady later q → BecameOn q last more o (next q))
        → BecameOn p last (frames ++ more) o (then_also callback next)
    after-Became p later last frames more none callback next h g =
        subst (λ (l : List Frame). Queues last p l (then_also callback next))
          (sym (without_pings-append frames more))
          (Queues-then later last p (without_pings frames) (without_pings more) callback next h g)
    after-Became p later last frames more (some error) callback next h g = tt

    chain-Became :
        (p : WsProtocol C D) (r : Fed × FrameParser) (callback : Callback C D)
        (feeds : FrameParser → Given × FrameParser) (next : WsProtocol C D → Callback C D)
        → Outcome p r callback
        → ((later : FrameParser) (q : WsProtocol C D)
            → IsReady later q
            → Became q (feeds later) (next q))
        → Became p (chain r feeds) (then_also callback next)
    chain-Became p (raised error, later) callback feeds next h k = tt
    chain-Became p (fed frames consumed, later) callback feeds next h k =
        after-Became p later (feeds later).1 frames (feeds later).0.frames (feeds later).0.error
          callback next h (k later)

    receive_chunks-Became :
        (parser : FrameParser) (chunk : List ℕ) (chunks : List (List ℕ)) (p : WsProtocol C D)
        → IsReady parser p
        → Became p (feed_chunks parser chunk chunks) (receive_chunks chunk chunks p)
    unfolding feed_chunks receive_chunks
    receive_chunks-Became parser chunk [] p h =
        given_by-Became p (feed parser chunk) (data_received env chunk p)
          (data_received-Outcome parser chunk p h)
    receive_chunks-Became parser chunk (next ∷ chunks) p h =
        chain-Became p (feed parser chunk) (data_received env chunk p)
          (λ later. feed_chunks later next chunks) (receive_chunks next chunks)
          (data_received-Outcome parser chunk p h)
          (λ later q. receive_chunks-Became later next chunks q)

    Queues-frames :
        (parser : FrameParser) (p : WsProtocol C D) (frames : List Frame) (r : Callback C D)
        → Queues parser p frames r
        → (r.0 ≡ none) × (r.1.frames ≡ p.frames ++ frames)
    Queues-frames parser p frames (some error, q) h = absurd h
    Queues-frames parser p frames (none, q) h = (refl, h.1)

    -- When the peer's encoded frames arrive, cut into chunks anywhere, at a protocol whose handshake is
    -- done, whose parser has an empty buffer and which does not compress, no callback raises and the
    -- queue gets exactly those frames, in order, without the pings. Each frame is one that the parser
    -- admits, its payload and key are bytes and its payload is shorter than 2 ^ 63.
    pub receive_chunks-stream :
        (parser : FrameParser) (p : WsProtocol C D) (sent : List (Frame × Option Key))
        (chunk : List ℕ) (chunks : List (List ℕ))
        → p.handshake_done ≡ true
        → p.parser ≡ some parser
        → p.deflater ≡ none
        → parser.buffer ≡ []
        → AllSendable parser.max_frame_size sent
        → chunk ++ concat chunks ≡ stream sent
        → ((receive_chunks chunk chunks p).0 ≡ none)
          × ((receive_chunks chunk chunks p).1.frames ≡ p.frames ++ without_pings (frames_of sent))
    receive_chunks-stream parser p sent chunk chunks done has plain empty ok cut =
        let r : Given × FrameParser = feed_chunks parser chunk chunks in
        Queues-frames (r.1) p (without_pings (frames_of sent)) (receive_chunks chunk chunks p) (
          subst (λ (g : Given). Became p (g, r.1) (receive_chunks chunk chunks p))
            (feed_chunks-stream parser sent chunk chunks empty ok cut)
            (receive_chunks-Became parser chunk chunks p (done, (has, plain))))
