-- ===== src/Ring/Defs.antt =====
-- The methods of `RingBuffer` in jetsocket/_core.pyx and of its pure-Python twin
-- `_PythonRingBuffer` in jetsocket/buffer.py, which have the same bodies. A Python value that may be
-- None is an `Option`; a method that changes the object returns the new object last. `peek`,
-- `reset_dropped_counter` and the check of `create` are in _core.pyx only.

use jetsocket.Prelude.{
  ℕ, zero, suc, ◌+◌, ◌-◌, ◌%◌, Bool, true, false, Option, none, some, List, [], ◌∷◌, ◌++◌, set,
  get_or, replicate, ◌==◌, if◌then◌else◌,
}
use jetsocket.Exceptions.{Result, ok, err, buffer_overflow_error, value_error}

-- `OverflowPolicyType`.
pub data OverflowPolicy : Type 0 where
  drop_oldest drop_newest error : OverflowPolicy

-- `(item, sequence_id)`.
abbrev pub Entry {ℓ} : Type ℓ → Type ℓ → Type ℓ
Entry T S = Option T × Option S

pub record RingBuffer {ℓ} (T S : Type ℓ) : Type ℓ where
  pub buffer : List (Option (Entry T S))
  pub head : ℕ
  pub tail : ℕ
  pub len : ℕ
  pub capacity : ℕ
  pub policy : OverflowPolicy
  pub total_dropped : ℕ

-- `items.append(item)` under `if item is not None`.
abbrev pub append_some {ℓ} : {A : Type ℓ} → List A → Option A → List A
append_some items none = items
append_some items (some item) = items ++ (item ∷ [])

-- `for i in range(n): buffer[i] = None`
abbrev pub blank {ℓ} : {A : Type ℓ} → ℕ → List (Option A) → List (Option A)
blank zero buffer = buffer
blank (suc n) buffer = set (blank n buffer) n none

module _ {ℓ} {T S : Type ℓ} where
  -- `__init__`
  unfoldable pub init : ℕ → OverflowPolicy → RingBuffer T S
  init capacity policy = record {
    buffer = replicate capacity none;
    head = 0;
    tail = 0;
    len = 0;
    capacity = capacity;
    policy = policy;
    total_dropped = 0;
  }

  -- `__init__` of _core.pyx, which refuses a capacity of 0.
  unfoldable pub create : ℕ → OverflowPolicy → Result (RingBuffer T S)
  unfolding init
  create capacity policy = if capacity == 0 then err value_error else ok (init capacity policy)

  -- The branch of `push` for 'drop_oldest'.
  unfoldable pub evict : RingBuffer T S → RingBuffer T S
  evict r = record r {
    head = (r.head + 1) % r.capacity;
    len = r.len - 1;
    total_dropped = r.total_dropped + 1;
  }

  -- The end of `push`.
  unfoldable pub store : Option T → Option S → RingBuffer T S → RingBuffer T S
  store item sequence_id r = record r {
    buffer = set r.buffer r.tail (some (item, sequence_id));
    tail = (r.tail + 1) % r.capacity;
    len = r.len + 1;
  }

  -- The body of `if self._len == self._capacity` and what follows it.
  unfoldable pub push_full :
      OverflowPolicy → Option T → Option S → RingBuffer T S → Result Bool × RingBuffer T S
  push_full drop_oldest item sequence_id r = (ok true, store item sequence_id (evict r))
  push_full drop_newest item sequence_id r =
      (ok false, record r { total_dropped = r.total_dropped + 1 })
  push_full error item sequence_id r = (err (buffer_overflow_error r.capacity r.len), r)

  unfoldable pub push : Option T → Option S → RingBuffer T S → Result Bool × RingBuffer T S
  unfolding push_full store evict
  push item sequence_id r =
      if r.len == r.capacity
      then push_full r.policy item sequence_id r
      else (ok true, store item sequence_id r)

  -- `item_tuple[0] if item_tuple else None`
  abbrev pub item_of : Option (Entry T S) → Option T
  item_of none = none
  item_of (some (item, sequence_id)) = item

  -- What `pop` and `drain_with_sequences` do to the object.
  unfoldable pub advance : RingBuffer T S → RingBuffer T S
  advance r = record r {
    buffer = set r.buffer r.head none;
    head = (r.head + 1) % r.capacity;
    len = r.len - 1;
  }

  unfoldable pub pop : RingBuffer T S → Option T × RingBuffer T S
  unfolding advance
  pop r = if r.len == 0 then (none, r) else (item_of (get_or r.buffer r.head none), advance r)

  unfoldable pub peek : RingBuffer T S → Option T
  peek r = if r.len == 0 then none else item_of (get_or r.buffer r.head none)

  -- `while self._len > 0` of `drain`, with fuel for its rounds.
  unfoldable pub drain_loop : ℕ → List T → RingBuffer T S → List T × RingBuffer T S
  drain_loop zero items r = (items, r)
  drain_loop (suc fuel) items r =
      let (item, r') = pop r in
      let rest = drain_loop fuel (append_some items item) r' in
      if r.len == 0 then (items, r) else rest

  -- Each round takes one from `len`, so `len` rounds are enough.
  unfoldable pub drain : RingBuffer T S → List T × RingBuffer T S
  unfolding drain_loop
  drain r = drain_loop r.len [] r

  unfoldable pub sequences_loop :
      ℕ → List (Entry T S) → RingBuffer T S → List (Entry T S) × RingBuffer T S
  sequences_loop zero items r = (items, r)
  sequences_loop (suc fuel) items r =
      let rest =
        sequences_loop fuel (append_some items (get_or r.buffer r.head none)) (advance r) in
      if r.len == 0 then (items, r) else rest

  unfoldable pub drain_with_sequences : RingBuffer T S → List (Entry T S) × RingBuffer T S
  unfolding sequences_loop advance
  drain_with_sequences r = sequences_loop r.len [] r

  unfoldable pub clear : RingBuffer T S → RingBuffer T S
  clear r = record r { buffer = blank r.capacity r.buffer; head = 0; tail = 0; len = 0 }

  unfoldable pub reset_dropped_counter : RingBuffer T S → RingBuffer T S
  reset_dropped_counter r = record r { total_dropped = 0 }

  unfoldable pub is_empty : RingBuffer T S → Bool
  is_empty r = r.len == 0

  unfoldable pub is_full : RingBuffer T S → Bool
  is_full r = r.len == r.capacity
