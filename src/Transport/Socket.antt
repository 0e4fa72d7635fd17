-- ===== src/Transport/Socket.antt =====
-- `_send_all` of jetsocket/transport/_sync.py. What the socket does is a script: one entry for each
-- turn of the loop.
use jetsocket.Prelude.{ℕ, zero, suc, List, [], ◌∷◌, ◌++◌, take, drop}
use jetsocket.Exceptions.{connection_error, timeout_error}
use jetsocket.Transport.Base.{Reply, waits, returns, raises}

-- The selector times out, or the socket takes at most so many octets, raises BlockingIOError, or
-- raises another OSError.
pub data Write : Type 0 where
  full : Write
  takes : ℕ → Write
  would_block : Write
  broken : Write

pub record Sent : Type 0 where
  pub reply : Reply (Unit {0})
  pub wire : List ℕ
  pub left : List Write

abbrev pub wrote : List ℕ → Sent → Sent
wrote octets rest = record { reply = rest.reply; wire = octets ++ rest.wire; left = rest.left }

abbrev stopped : Reply (Unit {0}) → List Write → Sent
stopped reply left = record { reply = reply; wire = []; left = left }

unfoldable pub send_all : List Write → List ℕ → Sent
send_all writes [] = stopped (returns tt) writes
send_all [] (x ∷ octets) = stopped waits []
send_all (full ∷ writes) (x ∷ octets) = stopped (raises timeout_error) writes
send_all (takes zero ∷ writes) (x ∷ octets) = stopped (raises connection_error) writes
send_all (takes (suc n) ∷ writes) (x ∷ octets) =
    wrote (x ∷ take n octets) (send_all writes (drop n octets))
send_all (would_block ∷ writes) (x ∷ octets) = send_all writes (x ∷ octets)
send_all (broken ∷ writes) (x ∷ octets) = stopped (raises connection_error) writes
