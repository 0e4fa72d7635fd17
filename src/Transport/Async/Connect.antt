-- ===== src/Transport/Async/Connect.antt =====
-- `connect`, `_resolve_dns`, `_connect_to_address` and the end of `_perform_handshake` of
-- jetsocket/transport/_async.py. The URI is parsed; what getaddrinfo, the connections and the handshake
-- give are arguments.
use jetsocket.Prelude.{
  ℕ, Bool, true, false, ◌||◌, Option, none, some, List, [], ◌∷◌, Eq, if◌then◌else◌,
}
use jetsocket.Exceptions.{Error, connection_error, timeout_error, Result, ok, err}
use jetsocket.Codec.Deflater.{Deflater, new_deflater}
use jetsocket.Transport.Base.{Reply, raises, Environment}
use jetsocket.Transport.Async.State.{WsProtocol}
use jetsocket.Transport.Async.Defs.{AsyncTransport, close_transport, start_frames}

-- How an attempt for one address ends: connected, with the protocol that was made; an OSError; the
-- timeout; or another exception.
pub data Attempt (C D : Type 0) : Type 0 where
  made : WsProtocol C D → Attempt C D
  os_error : Attempt C D
  timed_out : Attempt C D
  other : Error → Attempt C D

-- The answer of getaddrinfo within half of the connect timeout: the addresses, a gaierror, or silence.
pub data Lookup (A : Type 0) : Type 0 where
  found : List A → Lookup A
  no_such_host : Lookup A
  no_answer : Lookup A

-- What the server's response comes to: an exception of the wait or of the checks, or the parameters of
-- permessage-deflate, if it was agreed on.
abbrev pub Agreement : Type 0
Agreement = Option ((Bool × Bool) × (ℕ × ℕ))

module _ {A : Type 0} ⦃e : Eq A⦄ where
  abbrev pub seen : List A → A → Bool
  seen [] a = false
  seen (b ∷ rest) a = e.beq b a || seen rest a

  -- Each address once, in the order of getaddrinfo.
  unfoldable pub distinct : List A → List A → List A
  distinct before [] = []
  distinct before (a ∷ rest) =
      let fresh : List A = a ∷ distinct (a ∷ before) rest in
      let known : List A = distinct before rest in if seen before a then known else fresh

  abbrev some_addresses : List A → Result (List A)
  some_addresses [] = err connection_error
  some_addresses (a ∷ rest) = ok (a ∷ rest)

  -- _resolve_dns, and the timeout around it.
  unfoldable pub resolve_dns : Lookup A → Result (List A)
  resolve_dns no_such_host = err connection_error
  resolve_dns no_answer = err timeout_error
  resolve_dns (found infos) = some_addresses (distinct [] infos)

module _ {A C D : Type 0} where
  -- The loop over the addresses: only an OSError goes on to the next one.
  unfoldable pub try_addresses : (A → Attempt C D) → List A → Result (WsProtocol C D)
  try_addresses attempt [] = err connection_error
  try_addresses attempt (a ∷ rest) =
      let later : Result (WsProtocol C D) = try_addresses attempt rest in
      elim (attempt a) [
        | made protocol ↦ ok protocol
        | os_error ↦ later
        | timed_out ↦ err timeout_error
        | other error ↦ err error
      ]

module _ {C D : Type 0} (env : Environment C D) where
  abbrev some_deflater : Result (Deflater C D) → Result (Option (Deflater C D))
  some_deflater (ok d) = ok (some d)
  some_deflater (err error) = err error

  -- The deflater, where compression is wanted and the server agreed.
  unfoldable pub negotiated : Bool → Agreement → Result (Option (Deflater C D))
  negotiated compression none = ok none
  negotiated compression (some ((cnct, snct), (client_bits, server_bits))) =
      if compression
      then some_deflater (new_deflater env.zlib cnct snct client_bits server_bits)
      else ok none

  abbrev agreed : Bool → Result Agreement → Result (Option (Deflater C D))
  agreed compression (err error) = err error
  agreed compression (ok agreement) = negotiated compression agreement

  -- The handshake's failure closes what was opened.
  unfoldable pub after_handshake :
      AsyncTransport C D → Result (Option (Deflater C D)) → Reply (Unit {0}) × AsyncTransport C D
  after_handshake t (err error) = (raises error, close_transport t)
  after_handshake t (ok deflater) = start_frames env deflater t

  abbrev attached_to : AsyncTransport C D → WsProtocol C D → AsyncTransport C D
  attached_to t p = record {
    connected = t.connected;
    closing = t.closing;
    attached = true;
    close_code = t.close_code;
    close_reason = t.close_reason;
    protocol = p;
  }

  -- The handshake may let data arrive: it gives the protocol that it leaves.
  unfoldable pub handshaken :
      Bool
      → (WsProtocol C D → Result Agreement × WsProtocol C D)
      → AsyncTransport C D
      → Result (WsProtocol C D)
      → Reply (Unit {0}) × AsyncTransport C D
  handshaken compression handshake t (err error) = (raises error, t)
  handshaken compression handshake t (ok protocol) =
      let after : Result Agreement × WsProtocol C D = handshake protocol in
      after_handshake (attached_to t after.1) (agreed compression after.0)

module _ {A C D : Type 0} ⦃e : Eq A⦄ (env : Environment C D) where
  abbrev pub resolved :
      (A → Attempt C D)
      → Bool
      → (WsProtocol C D → Result Agreement × WsProtocol C D)
      → AsyncTransport C D
      → Result (List A)
      → Reply (Unit {0}) × AsyncTransport C D
  resolved attempt compression handshake t (err error) = (raises error, t)
  resolved attempt compression handshake t (ok addresses) =
      handshaken env compression handshake t (try_addresses attempt addresses)

  unfoldable pub connect :
      Lookup A
      → (A → Attempt C D)
      → Bool
      → (WsProtocol C D → Result Agreement × WsProtocol C D)
      → AsyncTransport C D
      → Reply (Unit {0}) × AsyncTransport C D
  connect lookup attempt compression handshake t =
      if t.connected
      then (raises connection_error, t)
      else resolved attempt compression handshake t (resolve_dns lookup)
