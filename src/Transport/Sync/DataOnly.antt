-- ===== src/Transport/Sync/DataOnly.antt =====
-- `recv` hands out data frames only, and what it has queued is lost behind a close frame.
use jetsocket.Prelude.{
  ℕ, Bool, true, false, not, ◌||◌, Option, none, some, List, [], ◌∷◌, ◌++◌, ◌≡◌, refl, sym, ap, ap₂,
  subst, ◌∙◌, if_either, if_true, if_false,
}
use jetsocket.Exceptions.{connection_error}
use jetsocket.Codec.Opcode.{Frame}
use jetsocket.Codec.Feed.{FrameParser, Fed, fed, raised, feed}
use jetsocket.Transport.Base.{Reply, waits, returns, raises, Environment}
use jetsocket.Transport.Sync.State.{SyncTransport, has, with_parser, with_pending}
use jetsocket.Transport.Sync.Close.{any_close}
use jetsocket.Transport.Sync.Defs.{not_ready}
use jetsocket.Transport.Sync.Recv.{
  Read, chunk, silence, blocked, broken, Received, received, handle_frames, deliver, on_fed,
  on_read, recv_loop, next_pending, recv,
}
use jetsocket.Transport.Sync.Delivery.{
  AllData, AllData-append, GivesFrame, Handles, handle_frames-Handles,
}

module _ {C D : Type 0} where
  -- A data frame at most, and only data frames in the queue.
  abbrev pub Delivers : Received C D → Type 0
  Delivers r = AllData r.transport.pending_frames × GivesFrame r.reply

  module _ (env : Environment C D) where
    abbrev Again : (SyncTransport C D → Received C D) → Type 0
    Again again = (u : SyncTransport C D) → AllData u.pending_frames → Delivers (again u)

    deliver-Delivers :
        (closes : Bool) (again : SyncTransport C D → Received C D) (left : List Read)
        (t : SyncTransport C D) (r : Reply (List Frame) × SyncTransport C D)
        → Again again
        → AllData t.pending_frames
        → Handles closes t r
        → Delivers (deliver env again left r)
    unfolding deliver
    deliver-Delivers closes again left t (waits, u) a q h = (subst AllData (sym h) q, tt)
    deliver-Delivers closes again left t (raises error, u) a q h = (subst AllData (sym h) q, tt)
    deliver-Delivers closes again left t (returns [], u) a q h = a u (subst AllData (sym h.1.0) q)
    deliver-Delivers closes again left t (returns (frame ∷ frames), u) a q h =
        (AllData-append u.pending_frames frames (subst AllData (sym h.1.0) q) h.0.1, h.0.0)

    on_fed-Delivers :
        (again : SyncTransport C D → Received C D) (left : List Read) (t : SyncTransport C D)
        (r : Fed × FrameParser)
        → Again again
        → AllData t.pending_frames
        → Delivers (on_fed env again left t r)
    unfolding on_fed
    on_fed-Delivers again left t (raised error, parser) a q = (q, tt)
    on_fed-Delivers again left t (fed frames consumed, parser) a q =
        deliver-Delivers (any_close frames) again left (with_parser t parser)
          (handle_frames env frames (with_parser t parser)) a q
          (handle_frames-Handles env frames (with_parser t parser))

    on_read-Delivers :
        (again : SyncTransport C D → Received C D) (left : List Read) (read : Read)
        (parser : Option FrameParser) (t : SyncTransport C D)
        → Again again
        → AllData t.pending_frames
        → Delivers (on_read env again left read parser t)
    unfolding on_read
    on_read-Delivers again left silence parser t a q = (q, tt)
    on_read-Delivers again left broken parser t a q = (q, tt)
    on_read-Delivers again left blocked parser t a q = (q, tt)
    on_read-Delivers again left (chunk []) parser t a q = (q, tt)
    on_read-Delivers again left (chunk (x ∷ octets)) none t a q = (q, tt)
    on_read-Delivers again left (chunk (x ∷ octets)) (some parser) t a q =
        on_fed-Delivers again left t (feed parser (x ∷ octets)) a q

    recv_loop-Delivers :
        (reads : List Read) (t : SyncTransport C D)
        → AllData t.pending_frames
        → Delivers (recv_loop env reads t)
    unfolding recv_loop
    recv_loop-Delivers [] t q = (q, if_either GivesFrame t.socket_open (λ e. tt) (λ e. tt))
    recv_loop-Delivers (read ∷ reads) t q =
        if_either Delivers t.socket_open
          (λ e.
            on_read-Delivers (recv_loop env reads) reads read t.parser t (recv_loop-Delivers reads)
              q)
          (λ e. (q, tt))

    next_pending-Delivers :
        (frames : List Frame) (reads : List Read) (t : SyncTransport C D)
        → AllData frames
        → AllData t.pending_frames
        → Delivers (next_pending env frames reads t)
    unfolding next_pending
    next_pending-Delivers [] reads t h q = recv_loop-Delivers reads t q
    next_pending-Delivers (frame ∷ frames) reads t h q = (h.1, h.0)

    -- A transport whose queue holds data frames only gives a data frame or none from `recv`, and its
    -- queue then holds data frames only, whatever arrives: close, ping and pong frames never reach the
    -- caller.
    pub recv-Delivers :
        (reads : List Read) (t : SyncTransport C D)
        → AllData t.pending_frames
        → Delivers (recv env reads t)
    unfolding recv
    recv-Delivers reads t q =
        if_either Delivers (not_ready t) (λ e. (q, tt))
          (λ e. next_pending-Delivers t.pending_frames reads t q q)

    -- The states around a chunk with a close frame.
    closed_recv :
        (more : List Read) (u : SyncTransport C D)
        → u.connected ≡ false
        → recv env more u ≡ received env (raises connection_error) more u
    unfolding recv
    closed_recv more u e =
        if_true (not_ready u) _ _ (ap (λ (b : Bool). not b || not (has u.parser)) e)

    abbrev LosesQueue : Frame → List Frame → List Read → Received C D → Type 0
    LosesQueue frame frames more r =
        (r.reply ≡ returns frame)
        × ((r.transport.pending_frames ≡ frames)
            × (recv env more r.transport ≡ received env (raises connection_error) more r.transport))

    deliver-LosesQueue :
        (again : SyncTransport C D → Received C D) (left more : List Read) (t u : SyncTransport C D)
        (frame : Frame) (frames : List Frame) (reply : Reply (List Frame))
        → t.pending_frames ≡ []
        → reply ≡ returns (frame ∷ frames)
        → Handles true t (reply, u)
        → LosesQueue frame frames more (deliver env again left (reply, u))
    unfolding deliver
    deliver-LosesQueue again left more t u frame frames reply q e h =
        let k : Handles true t (returns (frame ∷ frames), u) =
          subst (λ (r : Reply (List Frame)). Handles true t (r, u)) e h in
        subst
          (λ (r : Reply (List Frame)). LosesQueue frame frames more (deliver env again left (r, u)))
          (sym e)
          (
            refl,
            (
              ap (λ (p : List Frame). p ++ frames) (k.1.0 ∙ q),
              closed_recv more (with_pending u (u.pending_frames ++ frames)) k.1.1,
            ),
          )

    -- The first turn of the loop, on a chunk.
    first_turn :
        (x : ℕ) (octets : List ℕ) (reads : List Read) (t : SyncTransport C D)
        (parser later : FrameParser) (arrived : List Frame) (consumed : ℕ)
        → t.connected ≡ true
        → t.socket_open ≡ true
        → t.pending_frames ≡ []
        → t.parser ≡ some parser
        → feed parser (x ∷ octets) ≡ (fed arrived consumed, later)
        → recv env (chunk (x ∷ octets) ∷ reads) t
          ≡ deliver env
              (recv_loop env reads)
              reads
              (handle_frames env arrived (with_parser t later))
    unfolding recv next_pending recv_loop on_read on_fed
    first_turn x octets reads t parser later arrived consumed c o q p f =
        if_false (not_ready t) _ _
          (ap₂ (λ (b : Bool) (m : Option FrameParser). not b || not (has m)) c p)
        ∙ ap (λ (l : List Frame). next_pending env l (chunk (x ∷ octets) ∷ reads) t) q
        ∙ if_true t.socket_open _ _ o
        ∙ ap
            (λ (m : Option FrameParser).
              on_read env (recv_loop env reads) reads (chunk (x ∷ octets)) m t)
            p
        ∙ ap (on_fed env (recv_loop env reads) reads t) f

    -- A chunk whose frames include a close frame and data frames: on a ready transport with nothing
    -- queued, if the loop over the frames gives `frame` and then `frames`, `recv` returns `frame` and
    -- queues `frames`, and every later `recv` raises a connection error and leaves them there.
    pub recv_after_close :
        (x : ℕ) (octets : List ℕ) (reads more : List Read) (t : SyncTransport C D)
        (parser later : FrameParser) (arrived frames : List Frame) (consumed : ℕ) (frame : Frame)
        → t.connected ≡ true
        → t.socket_open ≡ true
        → t.pending_frames ≡ []
        → t.parser ≡ some parser
        → feed parser (x ∷ octets) ≡ (fed arrived consumed, later)
        → any_close arrived ≡ true
        → (handle_frames env arrived (with_parser t later)).0 ≡ returns (frame ∷ frames)
        → ((recv env (chunk (x ∷ octets) ∷ reads) t).reply ≡ returns frame)
          × (((recv env (chunk (x ∷ octets) ∷ reads) t).transport.pending_frames ≡ frames)
              × (recv env more (recv env (chunk (x ∷ octets) ∷ reads) t).transport
                  ≡ received env
                      (raises connection_error)
                      more
                      (recv env (chunk (x ∷ octets) ∷ reads) t).transport))
    recv_after_close x octets reads more t parser later arrived frames consumed frame c o q p f a
          g =
        let after : SyncTransport C D = with_parser t later in
        subst (LosesQueue frame frames more)
          (sym (first_turn x octets reads t parser later arrived consumed c o q p f))
          (deliver-LosesQueue (recv_loop env reads) reads more after
            (handle_frames env arrived after).1 frame frames (handle_frames env arrived after).0 q g
            (subst (λ (b : Bool). Handles b after (handle_frames env arrived after)) a
              (handle_frames-Handles env arrived after)))
