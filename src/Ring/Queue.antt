-- ===== src/Ring/Queue.antt =====
-- What a ring buffer promises: a FIFO of at most `capacity` entries, oldest first, with the number
-- of entries that it has dropped.
use jetsocket.Prelude.{
  ℕ, ◌+◌, Bool, true, false, Option, none, List, [], ◌∷◌, ◌++◌, length, ◌==◌, if◌then◌else◌,
}
use jetsocket.Exceptions.{Result, ok, err, buffer_overflow_error}
use jetsocket.Ring.Defs.{OverflowPolicy, drop_oldest, drop_newest, error, Entry}

pub record Queue {ℓ} (T S : Type ℓ) : Type ℓ where
  pub entries : List (Entry T S)
  pub dropped : ℕ

module _ {ℓ} {A : Type ℓ} where
  abbrev pub rest_of : List A → List A
  rest_of [] = []
  rest_of (x ∷ xs) = xs

module _ {ℓ} {T S : Type ℓ} where
  abbrev pub first_item : List (Entry T S) → Option T
  first_item [] = none
  first_item ((item, sequence_id) ∷ es) = item

  unfoldable pub push_full : ℕ → OverflowPolicy → Entry T S → Queue T S → Result Bool × Queue T S
  push_full capacity drop_oldest e q =
      (ok true, record { entries = rest_of q.entries ++ (e ∷ []); dropped = q.dropped + 1 })
  push_full capacity drop_newest e q = (ok false, record q { dropped = q.dropped + 1 })
  push_full capacity error e q = (err (buffer_overflow_error capacity capacity), q)

  unfoldable pub push : ℕ → OverflowPolicy → Entry T S → Queue T S → Result Bool × Queue T S
  unfolding push_full
  push capacity policy e q =
      if length q.entries == capacity
      then push_full capacity policy e q
      else (ok true, record q { entries = q.entries ++ (e ∷ []) })

  unfoldable pub pop : Queue T S → Option T × Queue T S
  pop q = (first_item q.entries, record q { entries = rest_of q.entries })

  abbrev pub items : List (Entry T S) → List (Option T)
  items [] = []
  items ((item, sequence_id) ∷ es) = item ∷ items es
