-- ===== src/Transport/Async/Reuse.antt =====
-- Addresses tried in turn, and a transport that is connected again after it was closed.
use jetsocket.Prelude.{
  ℕ, Bool, true, false, not, ◌||◌, Option, none, some, List, ◌≡◌, refl, ap, subst, ◌∙◌, Eq, if_true,
  if_either,
}
use jetsocket.Exceptions.{Result, ok, err}
use jetsocket.Codec.Deflater.{Deflater}
use jetsocket.Transport.Base.{Reply, waits, returns, raises, Environment}
use jetsocket.Transport.Async.State.{WsProtocol}
use jetsocket.Transport.Async.Protocol.{Callback}
use jetsocket.Transport.Async.Defs.{AsyncTransport, Event, connected_by, start_frames}
use jetsocket.Transport.Async.Connect.{
  Attempt, Lookup, Agreement, resolve_dns, after_handshake, handshaken, resolved, connect,
}
use jetsocket.Transport.Async.Close.{close}

module _ {C D : Type 0} (env : Environment C D) where
  -- A call that connects leaves `_closing` as it was.
  abbrev Connects : Bool → Reply (Unit {0}) × AsyncTransport C D → Type 0
  Connects closing (waits, t) = Unit {0}
  Connects closing (raises error, t) = Unit {0}
  Connects closing (returns u, t) = (t.connected ≡ true) × (t.closing ≡ closing)

  connected_by-Connects :
      (t : AsyncTransport C D) (r : Callback C D) → Connects t.closing (connected_by env t r)
  connected_by-Connects t (some error, p) = tt
  connected_by-Connects t (none, p) = (refl, refl)

  after_handshake-Connects :
      (t : AsyncTransport C D) (r : Result (Option (Deflater C D)))
      → Connects t.closing (after_handshake env t r)
  unfolding after_handshake start_frames
  after_handshake-Connects t (err error) = tt
  after_handshake-Connects t (ok deflater) = connected_by-Connects t _

  handshaken-Connects :
      (compression : Bool) (handshake : WsProtocol C D → Result Agreement × WsProtocol C D)
      (t : AsyncTransport C D) (r : Result (WsProtocol C D))
      → Connects t.closing (handshaken env compression handshake t r)
  unfolding handshaken
  handshaken-Connects compression handshake t (err error) = tt
  handshaken-Connects compression handshake t (ok protocol) = after_handshake-Connects _ _

  close_again :
      (code : ℕ) (reason : List ℕ) (events : List Event) (u : AsyncTransport C D)
      → u.closing ≡ true
      → close env code reason events u ≡ (events, u)
  unfolding close
  close_again code reason events u e =
      if_true (not u.connected || u.closing) _ _
        (ap (λ (b : Bool). not u.connected || b) e ∙ or_true (not u.connected))
    where
      or_true : (b : Bool) → (b || true) ≡ true
      or_true true = refl
      or_true false = refl

  module _ {A : Type 0} ⦃e : Eq A⦄ where
    resolved-Connects :
        (attempt : A → Attempt C D) (compression : Bool)
        (handshake : WsProtocol C D → Result Agreement × WsProtocol C D) (t : AsyncTransport C D)
        (r : Result (List A))
        → Connects t.closing (resolved env attempt compression handshake t r)
    resolved-Connects attempt compression handshake t (err error) = tt
    resolved-Connects attempt compression handshake t (ok addresses) =
        handshaken-Connects compression handshake t _

    connect-Connects :
        (lookup : Lookup A) (attempt : A → Attempt C D) (compression : Bool)
        (handshake : WsProtocol C D → Result Agreement × WsProtocol C D) (t : AsyncTransport C D)
        → Connects t.closing (connect env lookup attempt compression handshake t)
    unfolding connect
    connect-Connects lookup attempt compression handshake t =
        if_either (Connects t.closing) t.connected (λ e. tt)
          (λ e. resolved-Connects attempt compression handshake t (resolve_dns lookup))

    -- A transport that was closed and on which `connect` then succeeds is connected, but its `close`
    -- does nothing: it sends no close frame and leaves the transport connected.
    pub connect-close :
        (lookup : Lookup A) (attempt : A → Attempt C D) (compression : Bool)
        (handshake : WsProtocol C D → Result Agreement × WsProtocol C D) (t : AsyncTransport C D)
        (code : ℕ) (reason : List ℕ) (events : List Event)
        → t.closing ≡ true
        → (connect env lookup attempt compression handshake t).0 ≡ returns tt
        → ((connect env lookup attempt compression handshake t).1.connected ≡ true)
          × (close env code reason events (connect env lookup attempt compression handshake t).1
              ≡ (events, (connect env lookup attempt compression handshake t).1))
    connect-close lookup attempt compression handshake t code reason events c r =
        let u : Reply (Unit {0}) × AsyncTransport C D =
          connect env lookup attempt compression handshake t in
        let k : Connects t.closing (returns tt, u.1) =
          subst (λ (reply : Reply (Unit {0})). Connects t.closing (reply, u.1)) r
            (connect-Connects lookup attempt compression handshake t) in
        (k.0, close_again code reason events u.1 (k.1 ∙ c))
