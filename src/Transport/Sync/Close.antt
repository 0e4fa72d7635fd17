-- ===== src/Transport/Sync/Close.antt =====
-- `close` and `_wait_for_close` of jetsocket/transport/_sync.py. The reads of the wait have a timeout:
-- where their script ends, they time out.
use jetsocket.Prelude.{
  ℕ, Bool, true, false, not, ◌&&◌, ◌||◌, Option, none, some, List, [], ◌∷◌, if◌then◌else◌,
}
use jetsocket.Codec.Opcode.{Frame}
use jetsocket.Codec.Feed.{FrameParser, Fed, fed, raised, feed}
use jetsocket.Transport.Base.{Reply, waits, returns, raises, Environment}
use jetsocket.Transport.Sync.State.{SyncTransport, has, with_parser, with_status, with_close}
use jetsocket.Transport.Sync.Defs.{send_close, disconnected}
use jetsocket.Transport.Sync.Recv.{
  Read, chunk, silence, blocked, broken, Kind, close_kind, ping_kind, pong_kind, data_kind, kind,
}

-- The reads that are still to come, and the object.
abbrev pub Waited : Type 0 → Type 0 → Type 0
Waited C D = List Read × SyncTransport C D

abbrev pub is_close : Kind → Bool
is_close close_kind = true
is_close ping_kind = false
is_close pong_kind = false
is_close data_kind = false

-- frame.opcode == Opcode.CLOSE, for one of the frames.
abbrev pub any_close : List Frame → Bool
any_close [] = false
any_close (frame ∷ frames) = is_close (kind frame.opcode) || any_close frames

module _ {C D : Type 0} where
  -- An error ends the wait, and so does a close frame.
  unfoldable pub on_answer :
      (SyncTransport C D → Waited C D)
      → List Read
      → SyncTransport C D
      → Fed × FrameParser
      → Waited C D
  on_answer again left t (raised error, parser) = (left, with_parser t parser)
  on_answer again left t (fed frames consumed, parser) =
      if any_close frames then (left, with_parser t parser) else again (with_parser t parser)

  unfoldable pub wait_turn :
      (SyncTransport C D → Waited C D)
      → List Read
      → Read
      → Option FrameParser
      → SyncTransport C D
      → Waited C D
  wait_turn again left silence parser t = (left, t)
  wait_turn again left broken parser t = (left, t)
  wait_turn again left blocked parser t = (left, t)
  wait_turn again left (chunk []) parser t = (left, t)
  wait_turn again left (chunk (x ∷ octets)) none t = (left, t)
  wait_turn again left (chunk (x ∷ octets)) (some parser) t =
      on_answer again left t (feed parser (x ∷ octets))

  unfoldable pub wait_for_close : List Read → SyncTransport C D → Waited C D
  wait_for_close [] t = ([], t)
  wait_for_close (read ∷ reads) t =
      let turn : Waited C D = wait_turn (wait_for_close reads) reads read t.parser t in
      if t.connected && t.socket_open then turn else (read ∷ reads, t)

  -- The statements of the try block of `close`, errors suppressed.
  abbrev waited : List Read → Reply (Unit {0}) × SyncTransport C D → Reply (Unit {0}) × Waited C D
  waited reads (waits, t) = (waits, (reads, t))
  waited reads (raises error, t) = (returns tt, (reads, t))
  waited reads (returns u, t) = (returns tt, wait_for_close reads t)

  abbrev finished : Reply (Unit {0}) × Waited C D → Reply (Unit {0}) × Waited C D
  finished (waits, w) = (waits, w)
  finished (raises error, w) = (raises error, w)
  finished (returns u, (reads, t)) =
      let end : Reply (Unit {0}) × SyncTransport C D = disconnected t in (end.0, (reads, end.1))

  unfoldable pub close :
      Environment C D → ℕ → List ℕ → List Read → SyncTransport C D → Reply (Unit {0}) × Waited C D
  close env code reason reads t =
      let closing : SyncTransport C D = with_close (with_status t t.connected true) code reason in
      if not t.connected || t.closing
      then (returns tt, (reads, t))
      else finished (
          if has t.parser
          then waited reads (send_close env code reason closing)
          else (returns tt, (reads, closing)))
