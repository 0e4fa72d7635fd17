-- ===== src/Transport/Sync/Leftover.antt =====
-- What the server sends right behind its handshake response.
use jetsocket.Prelude.{
  ℕ, true, false, Option, none, some, List, [], ◌∷◌, ◌≡◌, refl, sym, ap, subst, ◌∙◌, if_true,
  if_false, if_either,
}
use jetsocket.Exceptions.{Result, ok}
use jetsocket.Codec.Feed.{FrameParser, new_parser}
use jetsocket.Codec.Deflater.{Deflater}
use jetsocket.Transport.Base.{Reply, returns, Environment}
use jetsocket.Transport.Sync.State.{SyncTransport}
use jetsocket.Transport.Sync.Defs.{transmit}
use jetsocket.Transport.Sync.Recv.{Read, chunk}
use jetsocket.Transport.Sync.Connect.{
  Checks, Stepped, opened, is_there, read_on, read_response, with_fields, checked, on_response,
  on_request, perform_handshake, after_handshake, open_socket, connect,
}
use jetsocket.Transport.Async.Protocol.{after_blank_line}

-- The response is whole: no more is read.
read_response_whole :
    (reads : List Read) (response extra : List ℕ)
    → after_blank_line response ≡ some extra
    → read_response reads response ≡ (returns response, reads)
unfolding read_response
read_response_whole [] response extra e =
    ap (λ (r : Reply (List ℕ)). (r, []))
      (if_true (is_there (after_blank_line response)) _ _ (ap is_there e))
read_response_whole (read ∷ reads) response extra e =
    if_true (is_there (after_blank_line response)) _ _ (ap is_there e)

read_response_first :
    (x : ℕ) (octets extra : List ℕ) (reads : List Read)
    → after_blank_line (x ∷ octets) ≡ some extra
    → read_response (chunk (x ∷ octets) ∷ reads) [] ≡ (returns (x ∷ octets), reads)
unfolding read_response read_on after_blank_line
read_response_first x octets extra reads e = read_response_whole reads (x ∷ octets) extra e

module _ {C D : Type 0} (env : Environment C D) where
  abbrev opened_by : SyncTransport C D → SyncTransport C D
  opened_by t = with_fields t t.connected true t.parser t.deflater

  abbrev new_one : FrameParser
  new_one = new_parser env.config.max_frame_size env.config.max_message_size

  -- Connected, with a new parser and an empty queue as before, and what is still to be read.
  abbrev pub Forgets : List Read → SyncTransport C D → Stepped (Unit {0}) C D → Type 0
  Forgets reads t r =
      (r.0 ≡ returns tt)
      × ((r.1.0 ≡ reads)
          × ((r.1.1.parser ≡ some new_one) × (r.1.1.pending_frames ≡ t.pending_frames)))

  transmit_pending :
      (octets : List ℕ) (t : SyncTransport C D)
      → (transmit octets t).1.pending_frames ≡ t.pending_frames
  unfolding transmit
  transmit_pending octets t =
      if_either
        (λ (r : Reply (Unit {0}) × SyncTransport C D). r.1.pending_frames ≡ t.pending_frames)
        t.socket_open (λ e. refl) (λ e. refl)

  finish-Forgets :
      (reads : List Read) (t u : SyncTransport C D) (deflater : Option (Deflater C D))
      → u.pending_frames ≡ t.pending_frames
      → Forgets reads t (after_handshake env (checked reads (ok deflater) u))
  unfolding after_handshake checked
  finish-Forgets reads t u none e = (refl, (refl, (refl, e)))
  finish-Forgets reads t u (some d) e = (refl, (refl, (refl, e)))

  request-Forgets :
      (checks : Checks C D) (x : ℕ) (octets extra : List ℕ) (reads : List Read)
      (t u : SyncTransport C D) (deflater : Option (Deflater C D)) (reply : Reply (Unit {0}))
      → reply ≡ returns tt
      → after_blank_line (x ∷ octets) ≡ some extra
      → checks (x ∷ octets) ≡ ok deflater
      → u.pending_frames ≡ t.pending_frames
      → Forgets reads t
          (after_handshake env (on_request checks (chunk (x ∷ octets) ∷ reads) (reply, u)))
  unfolding on_request on_response
  request-Forgets checks x octets extra reads t u deflater reply s b c p =
      subst (λ (r : Stepped (Unit {0}) C D). Forgets reads t (after_handshake env r))
        (sym (
          ap (λ (r : Reply (Unit {0})). on_request checks (chunk (x ∷ octets) ∷ reads) (r, u)) s
          ∙ ap (λ (r : Reply (List ℕ) × List Read). on_response checks r u)
              (read_response_first x octets extra reads b)
          ∙ ap (λ (r : Result (Option (Deflater C D))). checked reads r u) c))
        (finish-Forgets reads t u deflater p)

  -- A chunk that holds the whole response, with anything behind its blank line: where the socket opens,
  -- the request is sent and the response passes the checks, `connect` succeeds with a parser whose
  -- buffer is empty and with the queue as it was, and the reads go on after that chunk.
  pub connect-leftover :
      (request : List ℕ) (checks : Checks C D) (x : ℕ) (octets extra : List ℕ) (reads : List Read)
      (t : SyncTransport C D) (deflater : Option (Deflater C D))
      → t.connected ≡ false
      → (transmit request (with_fields t t.connected true t.parser t.deflater)).0 ≡ returns tt
      → after_blank_line (x ∷ octets) ≡ some extra
      → checks (x ∷ octets) ≡ ok deflater
      → Forgets reads t (connect env opened request checks (chunk (x ∷ octets) ∷ reads) t)
  unfolding connect open_socket perform_handshake
  connect-leftover request checks x octets extra reads t deflater c s b k =
      subst (Forgets reads t) (sym (if_false t.connected _ _ c)) (
        request-Forgets checks x octets extra reads t (transmit request (opened_by t)).1 deflater
          (transmit request (opened_by t)).0 s b k (transmit_pending request (opened_by t)))
