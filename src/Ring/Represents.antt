-- ===== src/Ring/Represents.antt =====
-- The representation invariant of a ring buffer: its live slots are the entries of a queue.
use native.Mathlib.Numerals.{add-one}
use native.Mathlib.Nat.{mod-lt, mod-add-mod, mod-eq_of_lt}
use jetsocket.Prelude.{
  ℕ, zero, suc, ◌+◌, ◌-◌, ◌%◌, ◌≤◌, ◌<◌, ◌≡◌, refl, sym, ap, ◌∙◌, Option, none, some, List, [], ◌∷◌,
  ◌++◌, map, map-append, length, length-set, length-map, length-replicate, set, arith,
}
use jetsocket.Ring.Defs.{RingBuffer, OverflowPolicy, Entry, init, evict, store, advance}
use jetsocket.Ring.Queue.{Queue, rest_of}
use jetsocket.Ring.Slots.{slots, slots-mod, slots-set_head, slots-set_end, length-slots}

rest_of-map {ℓ κ} :
    {A : Type ℓ} {B : Type κ} (f : A → B) (xs : List A) → rest_of (map f xs) ≡ map f (rest_of xs)
rest_of-map f [] = refl
rest_of-map f (x ∷ xs) = refl

-- Moving the head on by one, with one slot fewer, leaves the tail where it is.
tail_stays :
    (capacity h n t : ℕ)
    → 0 < n
    → t ≡ (h + n) % capacity
    → t ≡ ((h + 1) % capacity + (n - 1)) % capacity
tail_stays capacity h n t pos e = rw mod-add-mod (e ∙ ap (λ k. k % capacity) (omega arith))

module _ {ℓ} {T S : Type ℓ} where
  -- The live slots of a ring, oldest first.
  abbrev pub live : RingBuffer T S → List (Option (Entry T S))
  live r = slots r.buffer r.capacity r.head r.len

  pub record Represents (r : RingBuffer T S) (q : Queue T S) : Type ℓ where
    pub positive : 0 < r.capacity
    pub size : length r.buffer ≡ r.capacity
    pub head_in : r.head < r.capacity
    pub len_in : r.len ≤ r.capacity
    pub tail_at : r.tail ≡ (r.head + r.len) % r.capacity
    pub cells : live r ≡ map some q.entries
    pub counts : r.total_dropped ≡ q.dropped

  pub Represents-len :
      {r : RingBuffer T S} {q : Queue T S} → Represents r q → r.len ≡ length q.entries
  Represents-len {r} {q} h =
      sym (length-slots r.buffer r.capacity r.head r.len)
      ∙ ap length h.cells
      ∙ length-map some q.entries

  pub init-Represents :
      (capacity : ℕ) (policy : OverflowPolicy)
      → 0 < capacity
      → Represents (init capacity policy) (record { entries = []; dropped = 0 })
  unfolding init
  init-Represents capacity policy pos = record {
    positive = pos;
    size = length-replicate capacity none;
    head_in = pos;
    len_in = omega arith;
    tail_at = sym (mod-eq_of_lt pos);
    cells = refl;
    counts = refl;
  }

  -- Taking the oldest slot off a run.
  slots_rest :
      (buffer : List (Option (Entry T S))) (capacity h n : ℕ) (es : List (Entry T S))
      → 0 < n
      → slots buffer capacity h n ≡ map some es
      → slots buffer capacity ((h + 1) % capacity) (n - 1) ≡ map some (rest_of es)
  slots_rest buffer capacity h zero es pos e = elim pos [ ]
  slots_rest buffer capacity h (suc n) es pos e =
      slots-mod buffer capacity (h + 1) (suc n - 1)
      ∙ ap (slots buffer capacity (h + 1)) (omega arith)
      ∙ ap rest_of e
      ∙ rest_of-map some es

  pub store-Represents :
      {r : RingBuffer T S} {q : Queue T S} (item : Option T) (sequence_id : Option S)
      → Represents r q
      → r.len < r.capacity
      → Represents
          (store item sequence_id r)
          (record q { entries = q.entries ++ ((item, sequence_id) ∷ []) })
  unfolding store
  store-Represents {r} {q} item sequence_id h room = record {
    positive = h.positive;
    size = length-set r.buffer r.tail (some (item, sequence_id)) ∙ h.size;
    head_in = h.head_in;
    len_in = omega arith;
    tail_at = rw (h.tail_at, mod-add-mod) (ap (λ k. k % r.capacity) (omega arith));
    cells =
        ap (slots (set r.buffer r.tail (some (item, sequence_id))) r.capacity r.head)
          (add-one r.len)
        ∙ slots-set_end r.buffer r.capacity r.head r.len r.tail (some (item, sequence_id))
            h.positive (omega (arith, h.size)) room h.tail_at
        ∙ rw (map-append, h.cells);
    counts = h.counts;
  }

  pub evict-Represents :
      {r : RingBuffer T S} {q : Queue T S}
      → Represents r q
      → 0 < r.len
      → Represents (evict r) (record { entries = rest_of q.entries; dropped = q.dropped + 1 })
  unfolding evict
  evict-Represents {r} {q} h some_left = record {
    positive = h.positive;
    size = h.size;
    head_in = mod-lt (r.head + 1) h.positive;
    len_in = omega arith;
    tail_at = tail_stays r.capacity r.head r.len r.tail some_left h.tail_at;
    cells = slots_rest r.buffer r.capacity r.head r.len q.entries some_left h.cells;
    counts = omega arith;
  }

  pub advance-Represents :
      {r : RingBuffer T S} {q : Queue T S}
      → Represents r q
      → 0 < r.len
      → Represents (advance r) (record q { entries = rest_of q.entries })
  unfolding advance
  advance-Represents {r} {q} h some_left = record {
    positive = h.positive;
    size = length-set r.buffer r.head none ∙ h.size;
    head_in = mod-lt (r.head + 1) h.positive;
    len_in = omega arith;
    tail_at = tail_stays r.capacity r.head r.len r.tail some_left h.tail_at;
    cells =
        slots-set_head r.buffer r.capacity r.head r.len none h.head_in h.len_in
        ∙ slots_rest r.buffer r.capacity r.head r.len q.entries some_left h.cells;
    counts = h.counts;
  }
