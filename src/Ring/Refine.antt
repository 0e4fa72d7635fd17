-- ===== src/Ring/Refine.antt =====
-- Each method of the ring buffer does to its slots what the queue does to its entries.
use jetsocket.Prelude.{
  ℕ, zero, suc, ◌+◌, ◌-◌, ◌<◌, ◌≡◌, refl, ap, inl, inr, Option, none, some, List, [], ◌∷◌, map,
  get_or, length, length-set, arith, Bool-cases, ==_iff, ◌==◌, subst, sym, ◌∙◌,
}
use jetsocket.Ring.Defs.{
  RingBuffer, OverflowPolicy, drop_oldest, drop_newest, error, Entry, item_of, blank, push_full,
  push, pop, peek, evict, clear, reset_dropped_counter, is_empty, is_full,
}
use native.Mathlib.Nat.{mod-eq_of_lt}
use jetsocket.Ring.Queue
use jetsocket.Ring.Slots.{slots}
use jetsocket.Ring.Queue.{Queue, first_item}
use jetsocket.Ring.Represents.{
  Represents, Represents-len, store-Represents, evict-Represents, advance-Represents,
}

module _ {ℓ} {A : Type ℓ} where
  abbrev first_slot : List (Option A) → Option A
  first_slot [] = none
  first_slot (x ∷ xs) = x

  abbrev pub head? : List A → Option A
  head? [] = none
  head? (x ∷ xs) = some x

  first_slot-map : (xs : List A) → first_slot (map some xs) ≡ head? xs
  first_slot-map [] = refl
  first_slot-map (x ∷ xs) = refl

  no_entries : (xs : List A) → length xs ≡ 0 → xs ≡ []
  no_entries [] e = refl
  no_entries (x ∷ xs) e = absurd (omega arith)

length-blank {ℓ} :
    {A : Type ℓ} (n : ℕ) (buffer : List (Option A)) → length (blank n buffer) ≡ length buffer
length-blank zero buffer = refl
length-blank (suc n) buffer = length-set (blank n buffer) n none ∙ length-blank n buffer

module _ {ℓ} {T S : Type ℓ} where
  -- The answer and the object after a call, against the queue's.
  abbrev pub Agrees {κ} : {A : Type κ} → A × RingBuffer T S → A × Queue T S → Type (ℓ ⊔ κ)
  Agrees (a, r) (b, q) = (a ≡ b) × Represents r q

  dropped_one :
      {r : RingBuffer T S} {q : Queue T S}
      → Represents r q
      → Represents
          (record r { total_dropped = r.total_dropped + 1 })
          (record q { dropped = q.dropped + 1 })
  dropped_one h = record {
    positive = h.positive;
    size = h.size;
    head_in = h.head_in;
    len_in = h.len_in;
    tail_at = h.tail_at;
    cells = h.cells;
    counts = ap (λ n. n + 1) h.counts;
  }

  full_refines :
      (policy : OverflowPolicy) {r : RingBuffer T S} {q : Queue T S} (item : Option T)
      (sequence_id : Option S)
      → Represents r q
      → r.len ≡ r.capacity
      → Agrees
          (push_full policy item sequence_id r)
          (Queue.push_full r.capacity policy (item, sequence_id) q)
  unfolding push_full evict Queue.push_full
  full_refines drop_oldest item sequence_id h full = (
    refl,
    store-Represents item sequence_id (evict-Represents h (omega (arith, h.positive)))
        (omega (arith, h.positive)),
  )
  full_refines drop_newest item sequence_id h full = (refl, dropped_one h)
  full_refines error {r} item sequence_id h full = (rw full, h)

  -- `push` answers, raises and stores as the bounded queue does, on every policy.
  pub push_refines :
      {r : RingBuffer T S} {q : Queue T S} (item : Option T) (sequence_id : Option S)
      → Represents r q
      → Agrees (push item sequence_id r) (Queue.push r.capacity r.policy (item, sequence_id) q)
  unfolding push Queue.push
  push_refines {r} {q} item sequence_id h = elim (Bool-cases (r.len == r.capacity)) [
    | inl full ↦
        rw (← Represents-len h, full)
          (full_refines r.policy item sequence_id h ((==_iff r.len r.capacity).0 full))
    | inr room ↦
        rw (← Represents-len h, room)
          (refl, store-Represents item sequence_id h (ground (arith, h.len_in)))
  ]

  -- The slot at the head, where the queue is not empty.
  pub head_slot :
      (buffer : List (Option (Entry T S))) (capacity h n : ℕ) (es : List (Entry T S))
      → h < capacity
      → 0 < n
      → slots buffer capacity h n ≡ map some es
      → get_or buffer h none ≡ head? es
  head_slot buffer capacity h zero es lt pos e = elim pos [ ]
  head_slot buffer capacity h (suc n) es lt pos e =
      ap (λ i. get_or buffer i none) (sym (mod-eq_of_lt lt)) ∙ ap first_slot e ∙ first_slot-map es

  pub nothing_left :
      {r : RingBuffer T S} {q : Queue T S} → Represents r q → r.len ≡ 0 → q.entries ≡ []
  nothing_left {r} {q} h e = no_entries q.entries (omega (arith, Represents-len h))

  pub emptied :
      {r : RingBuffer T S} {q : Queue T S}
      → q.entries ≡ []
      → Represents r q
      → Represents r (record { entries = []; dropped = q.dropped })
  emptied {r} {q} e h =
      subst (λ es. Represents r (record { entries = es; dropped = q.dropped })) e h

  item_of-head? : (es : List (Entry T S)) → item_of (head? es) ≡ first_item es
  item_of-head? [] = refl
  item_of-head? ((item, sequence_id) ∷ es) = refl

  -- `pop` gives the oldest item and takes it out, or None from an empty buffer.
  pub pop_refines :
      {r : RingBuffer T S} {q : Queue T S} → Represents r q → Agrees (pop r) (Queue.pop q)
  unfolding pop Queue.pop
  pop_refines {r} {q} h = elim (Bool-cases (r.len == 0)) [
    | inl empty ↦
        rw (empty, nothing_left h ((==_iff r.len 0).0 empty))
          (refl, emptied (nothing_left h ((==_iff r.len 0).0 empty)) h)
    | inr more ↦ rw more (
      rw (head_slot r.buffer r.capacity r.head r.len q.entries h.head_in (ground arith) h.cells)
          (item_of-head? q.entries),
      advance-Represents h (ground arith),
    )
  ]

  -- `peek` gives the oldest item, or None from an empty buffer.
  pub peek_refines :
      {r : RingBuffer T S} {q : Queue T S} → Represents r q → peek r ≡ first_item q.entries
  unfolding peek
  peek_refines {r} {q} h = elim (Bool-cases (r.len == 0)) [
    | inl empty ↦ rw (empty, nothing_left h ((==_iff r.len 0).0 empty)) refl
    | inr more ↦ rw more (
        rw (head_slot r.buffer r.capacity r.head r.len q.entries h.head_in (ground arith) h.cells)
          (item_of-head? q.entries))
  ]

  pub len-pop : (r : RingBuffer T S) → (pop r).1.len ≡ r.len - 1
  unfolding pop
  len-pop r = ground arith

  pub is_empty_refines :
      {r : RingBuffer T S} {q : Queue T S} → Represents r q → is_empty r ≡ (length q.entries == 0)
  unfolding is_empty
  is_empty_refines h = rw (← Represents-len h)

  pub is_full_refines :
      {r : RingBuffer T S} {q : Queue T S}
      → Represents r q
      → is_full r ≡ (length q.entries == r.capacity)
  unfolding is_full
  is_full_refines h = rw (← Represents-len h)

  -- `clear` forgets the entries, and not the number of those dropped before.
  pub clear_refines :
      {r : RingBuffer T S} {q : Queue T S}
      → Represents r q
      → Represents (clear r) (record q { entries = [] })
  unfolding clear
  clear_refines {r} h = record {
    positive = h.positive;
    size = length-blank r.capacity r.buffer ∙ h.size;
    head_in = h.positive;
    len_in = omega arith;
    tail_at = sym (mod-eq_of_lt h.positive);
    cells = refl;
    counts = h.counts;
  }

  -- `reset_dropped_counter` forgets the number of dropped entries, and no entry.
  pub reset_refines :
      {r : RingBuffer T S} {q : Queue T S}
      → Represents r q
      → Represents (reset_dropped_counter r) (record q { dropped = 0 })
  unfolding reset_dropped_counter
  reset_refines h = record {
    positive = h.positive;
    size = h.size;
    head_in = h.head_in;
    len_in = h.len_in;
    tail_at = h.tail_at;
    cells = h.cells;
    counts = refl;
  }
