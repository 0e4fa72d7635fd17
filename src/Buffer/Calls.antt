-- ===== src/Buffer/Calls.antt =====
-- Sequences of calls on the message buffer of jetsocket/buffer.py, and the history of new IDs.
use jetsocket.Prelude.{Option, none, some, List, [], ◌∷◌, ◌++◌, ℕ, Eq, if◌then◌else◌}
use jetsocket.Buffer.Defs.{
  MessageBuffer, contains, pop, drain, drain_with_sequences, clear, clear_dedup, reset, push,
}
use jetsocket.Buffer.Window.{last_n}

-- The calls that change a message buffer.
pub data Call {ℓ} (T S : Type ℓ) : Type ℓ where
  pushes : Option T → Option S → Call T S
  pops drains drains_with_sequences clears clears_dedup resets : Call T S

module _ {ℓ} {T S : Type ℓ} ⦃e : Eq S⦄ where
  -- The buffer after a call, whatever the call gave back or raised.
  unfoldable pub after : MessageBuffer T S → Call T S → MessageBuffer T S
  after b (pushes message s) = (push message s b).1
  after b pops = (pop b).1
  after b drains = (drain b).1
  after b drains_with_sequences = (drain_with_sequences b).1
  after b clears = clear b
  after b clears_dedup = clear_dedup b
  after b resets = reset b

  unfoldable pub run : MessageBuffer T S → List (Call T S) → MessageBuffer T S
  run b [] = b
  run b (c ∷ cs) = run (after b c) cs

  -- The sequence IDs that were new when they were pushed, since the last reset, oldest first. An ID
  -- is new unless it is one of the last `window` of them.
  unfoldable pub fresh : ℕ → List S → Call T S → List S
  fresh window h (pushes message none) = h
  fresh window h (pushes message (some s)) =
      if contains (last_n window h) s then h else h ++ (s ∷ [])
  fresh window h pops = h
  fresh window h drains = h
  fresh window h drains_with_sequences = h
  fresh window h clears = h
  fresh window h clears_dedup = []
  fresh window h resets = []

  unfoldable pub history : ℕ → List S → List (Call T S) → List S
  history window h [] = h
  history window h (c ∷ cs) = history window (fresh window h c) cs
