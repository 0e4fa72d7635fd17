-- ===== src/Pool/Permits.antt =====
-- The permits of jetsocket/pool.py against its connections in use.
use jetsocket.Prelude.{ℕ, ◌+◌, ◌≡◌, Bool, true, false, List, [], ◌∷◌, Eq}
use jetsocket.State.{ConnectionState}
use jetsocket.Pool.Defs.{
  Attempt, Reply, acquired, raises, cancelled, Connection, Pool, init, update, acquire, dispose,
  release, close,
}

abbrev pub used : Bool → ℕ
used true = 1
used false = 0

abbrev pub is_cancelled : Reply → Bool
is_cancelled (acquired i) = false
is_cancelled (raises x) = false
is_cancelled cancelled = true

module _ {K : Type 0} where
  abbrev pub held : List (Connection K) → ℕ
  held [] = 0
  held (c ∷ objects) = used c.in_use + held objects

-- What the pool does, and what the network does to the state of a connection.
pub data Call (K : Type 0) : Type 0 where
  acquires : K → Attempt → Call K
  releases : ℕ → Call K
  sweeps : ℕ → Call K
  closes : Call K
  changes : ℕ → ConnectionState → Call K

module _ {K : Type 0} ⦃e : Eq K⦄ where
  unfoldable pub perform : Call K → Pool K → Pool K
  perform (acquires uri attempt) p = (acquire uri attempt p).1
  perform (releases i) p = release i p
  perform (sweeps i) p = dispose i p
  perform closes p = close p
  perform (changes i state) p = record p {
    objects = update (λ c. record c { state = state }) p.objects i;
  }

  -- The pool after calls, the last one first.
  unfoldable pub after : ℕ → List (Call K) → Pool K
  after max_connections [] = init max_connections
  after max_connections (c ∷ cs) = perform c (after max_connections cs)

  abbrev pub Balances : ℕ → Pool K → Type 0
  Balances n p = p.permits + held p.objects ≡ n

  abbrev Settles : ℕ → Reply × Pool K → Type 0
  Settles n r = r.1.permits + held r.1.objects + used (is_cancelled r.0) ≡ n

  -- One for an `acquire` that was cancelled after it had a permit.
  abbrev pub lost_in : Pool K → Call K → ℕ
  lost_in p (acquires uri attempt) = used (is_cancelled (acquire uri attempt p).0)
  lost_in p (releases i) = 0
  lost_in p (sweeps i) = 0
  lost_in p closes = 0
  lost_in p (changes i state) = 0

  -- How many there are among calls, the last one first.
  unfoldable pub lost : ℕ → List (Call K) → ℕ
  lost max_connections [] = 0
  lost max_connections (c ∷ cs) = lost_in (after max_connections cs) c + lost max_connections cs
