-- ===== src/SyncClient/Defs.antt =====
-- `SyncWebSocket` of jetsocket/sync_client.py. The manager in the background thread is seen by its
-- handlers and by what its calls give, which are arguments; `K` and `H` are the types of event names
-- and handlers, `M` that of messages. The lock, which makes each method one step, is left out.
use jetsocket.Prelude.{
  Bool, true, false, not, ◌&&◌, ◌||◌, Option, none, some, List, [], ◌∷◌, ◌++◌, map, Eq,
  if◌then◌else◌,
}
use jetsocket.Exceptions.{
  Error, connection_error, timeout_error, invalid_state_error, Result, ok, err,
}
use jetsocket.Events.Emitter as Emitters
use jetsocket.Events.Emitter.{Emitter}
use jetsocket.Transport.Base.{Reply, waits, returns, raises}

-- An entry of the message queue: a message or _SHUTDOWN.
pub data Item (M : Type 0) : Type 0 where
  message : M → Item M
  shutdown : Item M

pub record SyncWebSocket (K H M : Type 0) : Type 0 where
  pub closed : Bool
  pub thread_alive : Bool
  pub has_loop : Bool
  pub manager : Option (Emitter K H)
  pub message_queue : List (Item M)
  pub pending_handlers : List (K × H)

-- `future.result` with the exceptions that pass as they are, and the others as connection errors.
abbrev pub connect_failure : Error → Error
connect_failure connection_error = connection_error
connect_failure timeout_error = timeout_error
connect_failure error = connection_error

abbrev pub send_failure : Error → Error
send_failure connection_error = connection_error
send_failure invalid_state_error = invalid_state_error
send_failure error = connection_error

abbrev pub is_none {ℓ} : {A : Type ℓ} → Option A → Bool
is_none none = true
is_none (some a) = false

abbrev pub is_empty {ℓ} : {A : Type ℓ} → List A → Bool
is_empty [] = true
is_empty (x ∷ xs) = false

abbrev sent : Result (Unit {0}) → Result (Unit {0})
sent (ok u) = ok u
sent (err error) = err (send_failure error)

-- What one wait of 0.1 seconds in `__next__` brings.
abbrev pub Poll : Type 0 → Type 0
Poll M = Option (Item M)

module _ {K H M : Type 0} where
  abbrev pub with_queue : SyncWebSocket K H M → List (Item M) → SyncWebSocket K H M
  with_queue t items = record {
    closed = t.closed;
    thread_alive = t.thread_alive;
    has_loop = t.has_loop;
    manager = t.manager;
    message_queue = items;
    pending_handlers = t.pending_handlers;
  }

  abbrev pub with_handlers :
      SyncWebSocket K H M → Option (Emitter K H) → List (K × H) → SyncWebSocket K H M
  with_handlers t manager pending = record {
    closed = t.closed;
    thread_alive = t.thread_alive;
    has_loop = t.has_loop;
    manager = manager;
    message_queue = t.message_queue;
    pending_handlers = pending;
  }

  abbrev pub with_closed : SyncWebSocket K H M → Bool → SyncWebSocket K H M
  with_closed t closed = record {
    closed = closed;
    thread_alive = t.thread_alive;
    has_loop = t.has_loop;
    manager = t.manager;
    message_queue = t.message_queue;
    pending_handlers = t.pending_handlers;
  }

  -- _shutdown_loop
  unfoldable pub shutdown_loop : SyncWebSocket K H M → SyncWebSocket K H M
  shutdown_loop t = record {
    closed = t.closed;
    thread_alive = false;
    has_loop = false;
    manager = none;
    message_queue = t.message_queue;
    pending_handlers = t.pending_handlers;
  }

  -- _on_message
  unfoldable pub on_message : M → SyncWebSocket K H M → SyncWebSocket K H M
  on_message content t = with_queue t (t.message_queue ++ message content ∷ [])

  -- `close`: what arrives while the manager closes is queued behind _SHUTDOWN.
  unfoldable pub close : List M → SyncWebSocket K H M → SyncWebSocket K H M
  close late t =
      let stopped : SyncWebSocket K H M =
        with_queue (with_closed t true) (t.message_queue ++ shutdown ∷ []) in
      if t.closed
      then t
      else shutdown_loop (
          if t.has_loop && not (is_none t.manager)
          then with_queue stopped (stopped.message_queue ++ map message late)
          else stopped)

  -- `send` and `send_raw`, by what the manager's call gives.
  unfoldable pub send : Result (Unit {0}) → SyncWebSocket K H M → Result (Unit {0})
  send outcome t =
      if not t.has_loop || is_none t.manager then err invalid_state_error else sent outcome

  -- One `get` from the queue: its first entry, or what comes during the wait.
  abbrev pub got : Option (Item M) → SyncWebSocket K H M → Bool → Reply M × SyncWebSocket K H M
  got (some (message content)) t timed = (returns content, t)
  got (some shutdown) t timed = (raises connection_error, t)
  got none t timed = (if timed then raises timeout_error else waits, t)

  unfoldable pub get_message :
      Bool → Option (Item M) → List (Item M) → SyncWebSocket K H M → Reply M × SyncWebSocket K H M
  get_message timed arrival [] t = got arrival t timed
  get_message timed arrival (item ∷ items) t = got (some item) (with_queue t items) timed

  -- `timed` says that a timeout is given; `arrival` is the entry that comes before it ends, if any.
  unfoldable pub recv : Bool → Option (Item M) → SyncWebSocket K H M → Reply M × SyncWebSocket K H M
  recv timed arrival t =
      if t.closed && is_empty t.message_queue
      then (raises invalid_state_error, t)
      else get_message timed arrival t.message_queue t

  abbrev next_got : Item M → SyncWebSocket K H M → Reply (Option M) × SyncWebSocket K H M
  next_got (message content) t = (returns (some content), t)
  next_got shutdown t = (returns none, t)

  -- Where nothing came, the iteration ends on a closed client, or the method calls itself.
  unfoldable pub next_poll :
      Reply (Option M) × SyncWebSocket K H M
      → Poll M
      → SyncWebSocket K H M
      → Reply (Option M) × SyncWebSocket K H M
  next_poll again (some item) t = next_got item t
  next_poll again none t = if t.closed then (returns none, t) else again

  abbrev next_queued :
      Reply (Option M) × SyncWebSocket K H M
      → List (Item M)
      → SyncWebSocket K H M
      → Reply (Option M) × SyncWebSocket K H M
  next_queued wait [] t = wait
  next_queued wait (item ∷ items) t = next_got item (with_queue t items)

  -- `__next__`, over what its waits bring; after the last of them it still waits. No message stands for
  -- StopIteration. Python's limit of nested calls, which long waiting meets, is left out.
  unfoldable pub next : List (Poll M) → SyncWebSocket K H M → Reply (Option M) × SyncWebSocket K H M
  next [] t =
      if t.closed && is_empty t.message_queue
      then (returns none, t)
      else next_queued (waits, t) t.message_queue t
  next (poll ∷ polls) t =
      let again : Reply (Option M) × SyncWebSocket K H M = next polls t in
      if t.closed && is_empty t.message_queue
      then (returns none, t)
      else next_queued (next_poll again poll t) t.message_queue t

module _ {K H : Type 0} ⦃k : Eq K⦄ ⦃h : Eq H⦄ where
  abbrev pub register : List (K × H) → Emitter K H → Emitter K H
  register [] emitter = emitter
  register ((event, handler) ∷ pending) emitter =
      register pending (Emitters.add_handler event handler emitter)

  -- The first pair that is equal to the given one is taken out.
  unfoldable pub take_pending : K → H → List (K × H) → Bool × List (K × H)
  take_pending event handler [] = (false, [])
  take_pending event handler ((e, g) ∷ pending) =
      let later : Bool × List (K × H) = take_pending event handler pending in
      if k.beq e event && h.beq g handler then (true, pending) else (later.0, (e, g) ∷ later.1)

module _ {K H M : Type 0} ⦃k : Eq K⦄ ⦃h : Eq H⦄ where
  unfoldable pub add_handler : K → H → SyncWebSocket K H M → SyncWebSocket K H M
  add_handler event handler t = elim t.manager [
    | some emitter ↦
        with_handlers t (some (Emitters.add_handler event handler emitter)) t.pending_handlers
    | none ↦ with_handlers t none (t.pending_handlers ++ (event, handler) ∷ [])
  ]

  unfoldable pub remove_handler : K → H → SyncWebSocket K H M → Bool × SyncWebSocket K H M
  remove_handler event handler t = elim t.manager [
    | some emitter ↦ (
      (Emitters.remove_handler event handler emitter).0,
      with_handlers t (some (Emitters.remove_handler event handler emitter).1) t.pending_handlers,
    )
    | none ↦ (
      (take_pending event handler t.pending_handlers).0,
      with_handlers t none (take_pending event handler t.pending_handlers).1,
    )
  ]

  -- _run_event_loop up to the signal, for a manager that is made without an exception. `on_message` is
  -- the handler of the name `message_event` that forwards to the queue.
  unfoldable pub run_event_loop : K → H → SyncWebSocket K H M → SyncWebSocket K H M
  run_event_loop message_event forward t = record {
    closed = false;
    thread_alive = true;
    has_loop = true;
    manager = some (Emitters.add_handler message_event forward (register t.pending_handlers []));
    message_queue = t.message_queue;
    pending_handlers = [];
  }

  abbrev pub connected :
      Result (Unit {0}) → SyncWebSocket K H M → Result (Unit {0}) × SyncWebSocket K H M
  connected (ok u) t = (ok u, t)
  connected (err error) t = (err (connect_failure error), shutdown_loop t)

  -- The thread, whose loop does not start within its 30 seconds if `starts` is false.
  abbrev hung : SyncWebSocket K H M → SyncWebSocket K H M
  hung t = record {
    closed = false;
    thread_alive = true;
    has_loop = t.has_loop;
    manager = t.manager;
    message_queue = t.message_queue;
    pending_handlers = t.pending_handlers;
  }

  unfoldable pub connect :
      K
      → H
      → Bool
      → Result (Unit {0})
      → SyncWebSocket K H M
      → Result (Unit {0}) × SyncWebSocket K H M
  connect message_event forward starts outcome t =
      if t.closed || t.thread_alive
      then (err invalid_state_error, t)
      else if starts
      then connected outcome (run_event_loop message_event forward t)
      else (err timeout_error, hung t)
