-- ===== src/Stats/Tests.antt =====
-- The theorems about the statistics at concrete inputs, with whole numbers for the floats.
use jetsocket.Prelude.{ℕ, ◌≡◌, some, List, [], ◌∷◌}
use jetsocket.State.{connected}
use jetsocket.Float.Whole.{whole}
use jetsocket.Stats.Defs.{snapshot}
use jetsocket.Stats.Totals.{Call, after, snapshot_totals}

-- The last call first: what was sent before the reset does not count.
abbrev calls : List (Call whole ℕ)
calls =
    Call.receives 9 30
    ∷ Call.sends 8 20
    ∷ Call.measures 2 (some 3)
    ∷ Call.reconnects 7 7
    ∷ Call.disconnects
    ∷ Call.fails
    ∷ Call.resets
    ∷ Call.sends 3 10
    ∷ Call.connects 1
    ∷ Call.states connected
    ∷ []

snapshot_totals_example :
    let s = snapshot whole ℕ 12 (after whole ℕ calls) in
    (s.messages_sent ≡ 1)
    × (s.bytes_sent ≡ 20)
    × (s.messages_received ≡ 1)
    × (s.bytes_received ≡ 30)
    × (s.reconnect_count ≡ 1)
    × (s.errors ≡ 1)
snapshot_totals_example = snapshot_totals whole ℕ calls 12
