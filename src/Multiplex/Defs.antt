-- ===== src/Multiplex/Defs.antt =====
-- `Subscription` and `Multiplex` of jetsocket/multiplex.py. The user and the multiplexer share the
-- subscription objects: they stand in a list, and are known by their places in it. `K` is the type
-- of channels and `T` that of messages, which may be None, as is the mark of a closed queue.
use jetsocket.Prelude.{
  ℕ, zero, suc, ◌+◌, Bool, true, false, ◌&&◌, Option, none, some, List, [], ◌∷◌, ◌++◌, length, leb,
  ltb, Eq, if◌then◌else◌,
}
use jetsocket.Exceptions.{invalid_state_error, Result, ok, err}
use jetsocket.Dict.{Dict, get, put, delete}

-- `MultiplexConfig`; a `queue_size` of 0 is no bound. The messages themselves are left out.
pub record MultiplexConfig (K T : Type 0) : Type 0 where
  pub channel_extractor : Option T → Result (Option K)
  pub has_subscribe : Bool
  pub queue_size : ℕ

pub record Subscription (K T : Type 0) : Type 0 where
  pub channel : K
  pub queue : List (Option T)
  pub active : Bool
  pub messages_received : ℕ

-- `connected` is what the manager's `is_connected` gives, where there is a manager; `routing` holds
-- while the router's task runs.
pub record Multiplex (K T : Type 0) : Type 0 where
  pub config : MultiplexConfig K T
  pub objects : List (Subscription K T)
  pub subscriptions : Dict K ℕ
  pub total_subscriptions : ℕ
  pub total_messages_routed : ℕ
  pub unroutable_messages : ℕ
  pub has_manager : Bool
  pub connected : Bool
  pub routing : Bool
  pub closed : Bool

-- What `recv` gives: a message, an exception, or a wait.
pub data Received (T : Type 0) : Type 0 where
  got : T → Received T
  refused : Received T
  blocked : Received T

module _ {T : Type 0} where
  -- `Queue.full()` of asyncio: a bound of 0 is none.
  abbrev pub is_full : ℕ → List (Option T) → Bool
  is_full queue_size queue = ltb 0 queue_size && leb queue_size (length queue)

  abbrev pub drop_first : List (Option T) → List (Option T)
  drop_first [] = []
  drop_first (x ∷ queue) = queue

  -- `put_nowait`, and on QueueFull `get_nowait` before another one.
  unfoldable pub enqueue : ℕ → Option T → List (Option T) → List (Option T)
  enqueue queue_size message queue =
      if is_full queue_size queue
      then drop_first queue ++ (message ∷ [])
      else queue ++ (message ∷ [])

module _ {K T : Type 0} where
  unfoldable pub init : MultiplexConfig K T → Multiplex K T
  init config = record {
    config = config;
    objects = [];
    subscriptions = [];
    total_subscriptions = 0;
    total_messages_routed = 0;
    unroutable_messages = 0;
    has_manager = false;
    connected = false;
    routing = false;
    closed = false;
  }

  -- A message that has found its subscription.
  unfoldable pub deliver : ℕ → Option T → Subscription K T → Subscription K T
  deliver queue_size message s = record s {
    queue = enqueue queue_size message s.queue;
    messages_received = s.messages_received + 1;
  }

  -- `subscription._active = False` and `put_nowait(None)`, with QueueFull suppressed.
  unfoldable pub shut : ℕ → Subscription K T → Subscription K T
  shut queue_size s = record s {
    active = false;
    queue = if is_full queue_size s.queue then s.queue else s.queue ++ (none ∷ []);
  }

  -- A change of the object at a place.
  abbrev pub update :
      (Subscription K T → Subscription K T) → List (Subscription K T) → ℕ → List (Subscription K T)
  update f [] i = []
  update f (s ∷ objects) zero = f s ∷ objects
  update f (s ∷ objects) (suc i) = s ∷ update f objects i

  abbrev pub is_active : List (Subscription K T) → ℕ → Bool
  is_active [] i = false
  is_active (s ∷ objects) zero = s.active
  is_active (s ∷ objects) (suc i) = is_active objects i

  abbrev pub queue_of : List (Subscription K T) → ℕ → List (Option T)
  queue_of [] i = []
  queue_of (s ∷ objects) zero = s.queue
  queue_of (s ∷ objects) (suc i) = queue_of objects i

  abbrev pub channel_of : List (Subscription K T) → ℕ → Option K
  channel_of [] i = none
  channel_of (s ∷ objects) zero = some s.channel
  channel_of (s ∷ objects) (suc i) = channel_of objects i

  -- `for subscription in self._subscriptions.values()` of `close`
  abbrev pub shut_all : ℕ → Dict K ℕ → List (Subscription K T) → List (Subscription K T)
  shut_all queue_size [] objects = objects
  shut_all queue_size ((channel, i) ∷ d) objects =
      shut_all queue_size d (update (shut queue_size) objects i)

  unfoldable pub unroutable : Multiplex K T → Multiplex K T
  unroutable m = record m { unroutable_messages = m.unroutable_messages + 1 }

  unfoldable pub route_to : Option T → Option ℕ → Multiplex K T → Multiplex K T
  route_to message none m = unroutable m
  route_to message (some i) m =
      if is_active m.objects i
      then record m {
        objects = update (deliver m.config.queue_size message) m.objects i;
        total_messages_routed = m.total_messages_routed + 1;
      }
      else unroutable m

module _ {K T : Type 0} ⦃e : Eq K⦄ where
  unfoldable pub route_in : Option T → Result (Option K) → Multiplex K T → Multiplex K T
  route_in message (err x) m = record m { routing = false }
  route_in message (ok none) m = unroutable m
  route_in message (ok (some channel)) m = route_to message (get m.subscriptions channel) m

  -- The body of `_message_router` for one message; an exception of the extractor ends its task.
  unfoldable pub route : Multiplex K T → Option T → Multiplex K T
  route m message = if m.routing then route_in message (m.config.channel_extractor message) m else m

  unfoldable pub subscribe_sent : ℕ → Result (Unit {0}) → Multiplex K T → Result ℕ × Multiplex K T
  subscribe_sent i (ok _) m = (ok i, m)
  subscribe_sent i (err x) m = (err x, m)

  -- A new subscription, with what the manager's `send` does.
  unfoldable pub subscribe_new : K → Result (Unit {0}) → Multiplex K T → Result ℕ × Multiplex K T
  subscribe_new channel sent m =
      let i = length m.objects in
      let m1 = record m {
        objects =
            m.objects
            ++ (record { channel = channel; queue = []; active = true; messages_received = 0 }
                ∷ []);
        subscriptions = put m.subscriptions channel i;
        total_subscriptions = m.total_subscriptions + 1;
      } in
      if m.config.has_subscribe then subscribe_sent i sent m1 else (ok i, m1)

  unfoldable pub subscribe_with :
      K → Result (Unit {0}) → Option ℕ → Multiplex K T → Result ℕ × Multiplex K T
  subscribe_with channel sent none m = subscribe_new channel sent m
  subscribe_with channel sent (some i) m = (ok i, m)

  unfoldable pub subscribe : K → Result (Unit {0}) → Multiplex K T → Result ℕ × Multiplex K T
  subscribe channel sent m =
      if m.has_manager && m.connected
      then subscribe_with channel sent (get m.subscriptions channel) m
      else (err invalid_state_error, m)

  unfoldable pub unsubscribe_at : K → Option ℕ → Multiplex K T → Bool × Multiplex K T
  unsubscribe_at channel none m = (false, m)
  unsubscribe_at channel (some i) m = (
    true,
    record m {
      subscriptions = delete m.subscriptions channel;
      objects = update (shut m.config.queue_size) m.objects i;
    },
  )

  -- `unsubscribe`; what its message meets is suppressed.
  unfoldable pub unsubscribe : K → Multiplex K T → Bool × Multiplex K T
  unsubscribe channel m = unsubscribe_at channel (get m.subscriptions channel) m

  unfoldable pub unsubscribe_from : Option K → Multiplex K T → Multiplex K T
  unsubscribe_from none m = m
  unsubscribe_from (some channel) m = (unsubscribe channel m).1

  -- `close`; the manager's own `close` is not looked into.
  unfoldable pub close : Multiplex K T → Multiplex K T
  close m = if m.closed then m else record m {
    closed = true;
    objects = shut_all m.config.queue_size m.subscriptions m.objects;
    routing = false;
    has_manager = false;
    connected = false;
    subscriptions = [];
  }

  unfoldable pub connected_by :
      Result (Unit {0}) → Multiplex K T → Result (Unit {0}) × Multiplex K T
  connected_by (ok _) m = (ok tt, record m { connected = true; routing = true })
  connected_by (err x) m = (err x, m)

  -- `connect`, with what the manager's `connect` does.
  unfoldable pub connect : Result (Unit {0}) → Multiplex K T → Result (Unit {0}) × Multiplex K T
  connect answer m =
      if m.closed
      then (err invalid_state_error, m)
      else if m.has_manager
      then (err invalid_state_error, m)
      else connected_by answer (record m { has_manager = true })

  -- `recv` of the subscription at a place, whose wait may end in a timeout, and `__anext__`, which
  -- differs in the exception.
  unfoldable pub take_from : List (Option T) → ℕ → Multiplex K T → Received T × Multiplex K T
  take_from [] i m = (blocked, m)
  take_from (none ∷ queue) i m = (
    refused,
    record m { objects = update (λ s. record s { queue = queue; active = false }) m.objects i },
  )
  take_from (some message ∷ queue) i m =
      (got message, record m { objects = update (λ s. record s { queue = queue }) m.objects i })

  unfoldable pub recv : ℕ → Multiplex K T → Received T × Multiplex K T
  recv i m = if is_active m.objects i then take_from (queue_of m.objects i) i m else (refused, m)

  -- `Subscription.close`
  unfoldable pub close_subscription : ℕ → Multiplex K T → Multiplex K T
  close_subscription i m =
      let m1 = record m { objects = update (λ s. record s { active = false }) m.objects i } in
      if is_active m.objects i then unsubscribe_from (channel_of m.objects i) m1 else m
