-- ===== src/Transport/Sync/Delivery.antt =====
-- `recv` hands out data frames only.
use jetsocket.Prelude.{
  ℕ, Bool, true, false, ◌||◌, Option, none, some, List, [], ◌∷◌, ◌++◌, ◌≡◌, refl, ap, ◌∙◌,
  if◌then◌else◌,
}
use jetsocket.Exceptions.{Result, ok, err}
use jetsocket.Codec.Opcode.{Frame}
use jetsocket.Codec.Deflater.{Deflater}
use jetsocket.Transport.Base.{Reply, waits, returns, raises, next_statement, Environment}
use jetsocket.Transport.Sync.State.{SyncTransport}
use jetsocket.Transport.Sync.Keeps.{Keeps, Ended, handle_ping_frame-Keeps, handle_close_frame-Ended}
use jetsocket.Transport.Sync.Close.{is_close, any_close}
use jetsocket.Transport.Sync.Recv.{
  Kind, close_kind, ping_kind, pong_kind, data_kind, kind, inflate_with, inflate, keep,
  handle_frame, handle_frames,
}

abbrev pub AllData : List Frame → Type 0
AllData [] = Unit {0}
AllData (frame ∷ frames) = (kind frame.opcode ≡ data_kind) × AllData frames

pub AllData-append : (xs ys : List Frame) → AllData xs → AllData ys → AllData (xs ++ ys)
AllData-append [] ys h k = k
AllData-append (x ∷ xs) ys h k = (h.0, AllData-append xs ys h.1 k)

abbrev pub GivesFrame : Reply Frame → Type 0
GivesFrame waits = Unit {0}
GivesFrame (raises error) = Unit {0}
GivesFrame (returns frame) = kind frame.opcode ≡ data_kind

module _ {C D : Type 0} where
  -- What the loop over the frames of a chunk gives: data frames, the queue as it was, and a broken
  -- connection if one of the frames was a close frame.
  abbrev pub Handles : Bool → SyncTransport C D → Reply (List Frame) × SyncTransport C D → Type 0
  Handles closes t (waits, u) = u.pending_frames ≡ t.pending_frames
  Handles closes t (raises error, u) = u.pending_frames ≡ t.pending_frames
  Handles closes t (returns frames, u) =
      AllData frames
      × ((u.pending_frames ≡ t.pending_frames)
          × (u.connected ≡ (if closes then false else t.connected)))

  -- The same from a state with the same queue.
  moved :
      (closes : Bool) (t u : SyncTransport C D) (r : Reply (List Frame) × SyncTransport C D)
      → Keeps t u
      → Handles closes u r
      → Handles closes t r
  moved closes t u (waits, v) k h = h ∙ k.0
  moved closes t u (raises error, v) k h = h ∙ k.0
  moved closes t u (returns frames, v) k h =
      (h.0, (h.1.0 ∙ k.0, h.1.1 ∙ ap (λ (b : Bool). if closes then false else b) k.1))

  closed_before :
      (closes : Bool) (t u : SyncTransport C D) (r : Reply (List Frame) × SyncTransport C D)
      → u.pending_frames ≡ t.pending_frames
      → u.connected ≡ false
      → Handles closes u r
      → Handles true t r
  closed_before closes t u (waits, v) p c h = h ∙ p
  closed_before closes t u (raises error, v) p c h = h ∙ p
  closed_before closes t u (returns frames, v) p c h =
      (h.0, (h.1.0 ∙ p, h.1.1 ∙ either closes u.connected c))
    where
      either : (b c : Bool) → c ≡ false → (if b then false else c) ≡ false
      either true c e = refl
      either false c e = e

  module _ (env : Environment C D) where
    abbrev Rest : Bool → (SyncTransport C D → Reply (List Frame) × SyncTransport C D) → Type 0
    Rest closes rest = (u : SyncTransport C D) → Handles closes u (rest u)

    close_then :
        (closes : Bool) (rest : SyncTransport C D → Reply (List Frame) × SyncTransport C D)
        (t : SyncTransport C D) (r : Reply (Unit {0}) × SyncTransport C D)
        → Rest closes rest
        → Ended t r
        → Handles true t (next_statement r (λ (a : Unit {0}). rest))
    close_then closes rest t (waits, u) h e = e
    close_then closes rest t (raises error, u) h e = e
    close_then closes rest t (returns a, u) h e = closed_before closes t u (rest u) e.0 e.1 (h u)

    ping_then :
        (closes : Bool) (rest : SyncTransport C D → Reply (List Frame) × SyncTransport C D)
        (t : SyncTransport C D) (r : Reply (Unit {0}) × SyncTransport C D)
        → Rest closes rest
        → Keeps t r.1
        → Handles closes t (next_statement r (λ (a : Unit {0}). rest))
    ping_then closes rest t (waits, u) h e = e.0
    ping_then closes rest t (raises error, u) h e = e.0
    ping_then closes rest t (returns a, u) h e = moved closes t u (rest u) e (h u)

    keep_data :
        (closes : Bool) (frame : Frame) (u : SyncTransport C D)
        (r : Reply (List Frame) × SyncTransport C D)
        → kind frame.opcode ≡ data_kind
        → Handles closes u r
        → Handles closes u (keep env frame r)
    keep_data closes frame u (waits, v) e h = h
    keep_data closes frame u (raises error, v) e h = h
    keep_data closes frame u (returns frames, v) e h = ((e, h.0), h.1)

    -- Inflating keeps the opcode and the queue.
    abbrev Inflates : Frame → SyncTransport C D → Reply Frame × SyncTransport C D → Type 0
    Inflates frame t (waits, u) = Keeps t u
    Inflates frame t (raises error, u) = Keeps t u
    Inflates frame t (returns g, u) = (g.opcode ≡ frame.opcode) × Keeps t u

    inflate_with-Inflates :
        (frame : Frame) (r : Result (List ℕ) × Deflater C D) (t : SyncTransport C D)
        → Inflates frame t (inflate_with env frame r t)
    inflate_with-Inflates frame (ok payload, d) t = (refl, (refl, refl))
    inflate_with-Inflates frame (err error, d) t = (refl, refl)

    inflate-Inflates :
        (frame : Frame) (b : Bool) (d : Option (Deflater C D)) (t : SyncTransport C D)
        → Inflates frame t (inflate env frame b d t)
    unfolding inflate
    inflate-Inflates frame false d t = (refl, (refl, refl))
    inflate-Inflates frame true none t = (refl, (refl, refl))
    inflate-Inflates frame true (some d) t = inflate_with-Inflates frame _ t

    data_then :
        (closes : Bool) (frame : Frame)
        (rest : SyncTransport C D → Reply (List Frame) × SyncTransport C D) (t : SyncTransport C D)
        (r : Reply Frame × SyncTransport C D)
        → kind frame.opcode ≡ data_kind
        → Rest closes rest
        → Inflates frame t r
        → Handles closes t
            (next_statement r (λ (f : Frame) (u : SyncTransport C D). keep env f (rest u)))
    data_then closes frame rest t (waits, u) k h e = e.0
    data_then closes frame rest t (raises error, u) k h e = e.0
    data_then closes frame rest t (returns g, u) k h e =
        moved closes t u _ e.1 (keep_data closes g u (rest u) (ap kind e.0 ∙ k) (h u))

    handle_frame-Handles :
        (closes : Bool) (frame : Frame) (k : Kind)
        (rest : SyncTransport C D → Reply (List Frame) × SyncTransport C D) (t : SyncTransport C D)
        → kind frame.opcode ≡ k
        → Rest closes rest
        → Handles (is_close k || closes) t (handle_frame env frame k rest t)
    unfolding handle_frame
    handle_frame-Handles closes frame close_kind rest t e h =
        close_then closes rest t _ h (handle_close_frame-Ended env frame t)
    handle_frame-Handles closes frame ping_kind rest t e h =
        ping_then closes rest t _ h (handle_ping_frame-Keeps env frame t)
    handle_frame-Handles closes frame pong_kind rest t e h = h t
    handle_frame-Handles closes frame data_kind rest t e h =
        data_then closes frame rest t _ e h (inflate-Inflates frame frame.rsv1 t.deflater t)

    pub handle_frames-Handles :
        (frames : List Frame) (t : SyncTransport C D)
        → Handles (any_close frames) t (handle_frames env frames t)
    unfolding handle_frames
    handle_frames-Handles [] t = (tt, (refl, refl))
    handle_frames-Handles (frame ∷ frames) t =
        handle_frame-Handles (any_close frames) frame (kind frame.opcode) (handle_frames env frames)
          t refl (handle_frames-Handles frames)
