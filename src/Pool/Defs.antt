-- ===== src/Pool/Defs.antt =====
-- `ConnectionPool` of jetsocket/pool.py. The connections are objects that the user and the pool
-- share: they stand in a list and are known by their places. The manager of a connection is seen
-- by its state. `K` is the type of resolved URIs. A wait for the semaphore that cannot be met ends
-- in its timeout; what is idle for too long, by the clock, is an argument.
use jetsocket.Prelude.{
  ℕ, zero, suc, ◌+◌, ◌-◌, Bool, true, false, not, ◌&&◌, ◌||◌, Option, none, some, List, [], ◌∷◌,
  ◌++◌, length, ◌==◌, Eq, if◌then◌else◌,
}
use jetsocket.Exceptions.{Error, pool_exhausted_error, pool_closed_error}
use jetsocket.State.{
  ConnectionState, connected, reconnecting, backing_off, closed, one_of, is_terminal,
}
use jetsocket.Dict.{Dict, get, put, delete}

-- `_PooledConnectionState`
pub record Connection (K : Type 0) : Type 0 where
  pub uri : K
  pub state : ConnectionState
  pub in_use : Bool

-- `permits` are those that the semaphore has left.
pub record Pool (K : Type 0) : Type 0 where
  pub max_connections : ℕ
  pub objects : List (Connection K)
  pub connections : Dict K (List ℕ)
  pub connection_count : ℕ
  pub permits : ℕ
  pub closed : Bool

-- The waits of `acquire` once it has a permit: for the lock before the search for an idle connection
-- and before a dead one is removed, for the new manager's `connect`, and for the lock before its
-- connection, in the state given, is put into the pool.
pub data Wait : Type 0 where
  lookup removal connect : Wait
  registration : ConnectionState → Wait

-- What becomes of an `acquire` on the way: the new manager's `connect` leaves a state or raises an
-- exception, or CancelledError, which is no Exception, is raised at a wait. A cancellation at a wait that
-- is not reached comes at the next one, or not at all; one before there is a permit changes nothing.
pub data Attempt : Type 0 where
  connects : ConnectionState → Attempt
  fails : Error → Attempt
  cancelled_at : Wait → Attempt

-- What `acquire` gives.
pub data Reply : Type 0 where
  acquired : ℕ → Reply
  raises : Error → Reply
  cancelled : Reply

abbrev pub at_lookup : Attempt → Bool
at_lookup (cancelled_at lookup) = true
at_lookup (cancelled_at removal) = false
at_lookup (cancelled_at connect) = false
at_lookup (cancelled_at (registration state)) = false
at_lookup (connects state) = false
at_lookup (fails x) = false

abbrev pub at_removal : Attempt → Bool
at_removal (cancelled_at lookup) = false
at_removal (cancelled_at removal) = true
at_removal (cancelled_at connect) = false
at_removal (cancelled_at (registration state)) = false
at_removal (connects state) = false
at_removal (fails x) = false

-- `list.remove` of a place that is there, and no change otherwise.
abbrev pub take_out : List ℕ → ℕ → List ℕ
take_out [] i = []
take_out (j ∷ places) i = if j == i then places else j ∷ take_out places i

abbrev pub or_none : Option (List ℕ) → List ℕ
or_none none = []
or_none (some places) = places

abbrev pub is_empty : List ℕ → Bool
is_empty [] = true
is_empty (i ∷ places) = false

-- The places for which a test holds.
abbrev pub select : (ℕ → Bool) → List ℕ → List ℕ
select test [] = []
select test (i ∷ places) = let rest = select test places in if test i then i ∷ rest else rest

module _ {K : Type 0} where
  unfoldable pub init : ℕ → Pool K
  init max_connections = record {
    max_connections = max_connections;
    objects = [];
    connections = [];
    connection_count = 0;
    permits = max_connections;
    closed = false;
  }

  -- A change of the object at a place.
  abbrev pub update : (Connection K → Connection K) → List (Connection K) → ℕ → List (Connection K)
  update f [] i = []
  update f (c ∷ objects) zero = f c ∷ objects
  update f (c ∷ objects) (suc i) = c ∷ update f objects i

  abbrev pub in_use_at : List (Connection K) → ℕ → Bool
  in_use_at [] i = true
  in_use_at (c ∷ objects) zero = c.in_use
  in_use_at (c ∷ objects) (suc i) = in_use_at objects i

  abbrev pub object_at : List (Connection K) → ℕ → Option (Connection K)
  object_at [] i = none
  object_at (c ∷ objects) zero = some c
  object_at (c ∷ objects) (suc i) = object_at objects i

  -- `mark_used` and `mark_released`
  abbrev pub mark : Bool → Connection K → Connection K
  mark in_use c = record c { in_use = in_use }

  -- `_close_connection`, where the manager closes unless it has ended before.
  abbrev pub close_connection : Connection K → Connection K
  close_connection c = record c { state = if is_terminal c.state then c.state else closed }

  -- `_get_idle_connection` in the list of a URI
  abbrev pub first_idle : List (Connection K) → List ℕ → Option ℕ
  first_idle objects [] = none
  first_idle objects (i ∷ places) =
      if in_use_at objects i then first_idle objects places else some i

  abbrev pub is_usable : Option (Connection K) → Bool
  is_usable none = false
  is_usable (some c) = one_of c.state (connected ∷ reconnecting ∷ backing_off ∷ [])

  abbrev pub is_dead : Option (Connection K) → Bool
  is_dead none = false
  is_dead (some c) = is_terminal c.state

  abbrev pub is_held : Option (Connection K) → Bool
  is_held none = false
  is_held (some c) = c.in_use

  abbrev pub close_all : List ℕ → List (Connection K) → List (Connection K)
  close_all [] objects = objects
  close_all (i ∷ places) objects = close_all places (update close_connection objects i)

  abbrev pub all_places : Dict K (List ℕ) → List ℕ
  all_places [] = []
  all_places ((uri, places) ∷ d) = places ++ all_places d

module _ {K : Type 0} ⦃e : Eq K⦄ where
  unfoldable pub without : K → List ℕ → Dict K (List ℕ) → Dict K (List ℕ)
  without uri places d = if is_empty places then delete d uri else put d uri places

  unfoldable pub remove_from : K → ℕ → Option (List ℕ) → Pool K → Pool K
  remove_from uri i none p = p
  remove_from uri i (some places) p = record p {
    connections = without uri (take_out places i) p.connections;
  }

  unfoldable pub remove_object : ℕ → Option (Connection K) → Pool K → Pool K
  remove_object i none p = p
  remove_object i (some c) p = remove_from c.uri i (get p.connections c.uri) p

  -- `_remove_connection`
  unfoldable pub remove_connection : ℕ → Pool K → Pool K
  remove_connection i p = remove_object i (object_at p.objects i) p

  -- `_get_idle_connection`
  unfoldable pub get_idle_connection : K → Pool K → Option ℕ
  get_idle_connection uri p = first_idle p.objects (or_none (get p.connections uri))

  -- `_create_connection`, `mark_used` and the release of the semaphore under `except Exception`, which
  -- a cancellation does not meet.
  unfoldable pub create_connection : K → Attempt → Pool K → Reply × Pool K
  create_connection uri (fails x) p = (raises x, record p { permits = p.permits + 1 })
  create_connection uri (cancelled_at lookup) p = (cancelled, p)
  create_connection uri (cancelled_at removal) p = (cancelled, p)
  create_connection uri (cancelled_at connect) p = (cancelled, p)
  create_connection uri (cancelled_at (registration state)) p = (
    cancelled,
    record p { objects = p.objects ++ (record { uri = uri; state = state; in_use = false } ∷ []) },
  )
  create_connection uri (connects state) p =
      let i = length p.objects in
      (
        acquired i,
        record p {
          objects = p.objects ++ (record { uri = uri; state = state; in_use = true } ∷ []);
          connections = put p.connections uri (or_none (get p.connections uri) ++ (i ∷ []));
          connection_count = p.connection_count + 1;
        },
      )

  -- In place of a dead connection, which is removed first.
  unfoldable pub replace_connection : K → Attempt → ℕ → Pool K → Reply × Pool K
  replace_connection uri attempt i p =
      if at_removal attempt
      then (cancelled, p)
      else create_connection uri attempt (remove_connection i p)

  unfoldable pub acquire_with : K → Attempt → Option ℕ → Pool K → Reply × Pool K
  acquire_with uri attempt none p = create_connection uri attempt p
  acquire_with uri attempt (some i) p =
      if is_usable (object_at p.objects i)
      then (acquired i, record p { objects = update (mark true) p.objects i })
      else replace_connection uri attempt i p

  -- `acquire` with a permit
  unfoldable pub acquire_idle : K → Attempt → Pool K → Reply × Pool K
  acquire_idle uri attempt p =
      if at_lookup attempt
      then (cancelled, p)
      else acquire_with uri attempt (get_idle_connection uri p) p

  -- `acquire` of a resolved URI
  unfoldable pub acquire : K → Attempt → Pool K → Reply × Pool K
  acquire uri attempt p =
      if p.closed
      then (raises pool_closed_error, p)
      else if p.permits == 0
      then (raises (pool_exhausted_error p.max_connections), p)
      else acquire_idle uri attempt (record p { permits = p.permits - 1 })

  -- Closing a connection and removing it, in `release` and in the background loops: these close
  -- what they have collected, one after another, without the lock.
  unfoldable pub dispose : ℕ → Pool K → Pool K
  dispose i p = remove_connection i (record p { objects = update close_connection p.objects i })

  unfoldable pub released : ℕ → Pool K → Pool K
  released i p = if p.closed || is_dead (object_at p.objects i) then dispose i p else p

  -- `release`, which a `PooledConnection` makes once: as long as its connection is in use.
  unfoldable pub release : ℕ → Pool K → Pool K
  release i p =
      if is_held (object_at p.objects i)
      then released i
          (record p { objects = update (mark false) p.objects i; permits = p.permits + 1 })
      else p

  -- What a round of `_health_check_loop` collects, and one of `_cleanup_loop`, under the lock.
  unfoldable pub collect_dead : Pool K → List ℕ
  collect_dead p =
      select (λ i. not (in_use_at p.objects i) && is_dead (object_at p.objects i))
        (all_places p.connections)

  unfoldable pub collect_expired : (ℕ → Bool) → Pool K → List ℕ
  collect_expired expired p =
      select (λ i. not (in_use_at p.objects i) && expired i) (all_places p.connections)

  -- `close`
  unfoldable pub close : Pool K → Pool K
  close p = record p {
    objects = close_all (all_places p.connections) p.objects;
    connections = [];
    closed = true;
  }
