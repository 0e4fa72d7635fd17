-- ===== src/Ring/Trace.antt =====
-- Any sequence of calls on a ring buffer, against the same calls on a queue.
use jetsocket.Prelude.{
  ℕ, zero, suc, ◌<◌, ◌≡◌, refl, ap, ap₂, subst, get_or, ◌∙◌, Bool, Option, none, List, [], ◌∷◌,
  somes, arith,
}
use jetsocket.Exceptions.{Result}
use jetsocket.Ring.Defs.{
  RingBuffer, OverflowPolicy, Entry, init, push, pop, peek, drain, drain_with_sequences, clear,
  reset_dropped_counter, drain_loop, sequences_loop, append_some, advance,
}
use jetsocket.Ring.Queue
use jetsocket.Ring.Queue.{Queue, first_item, rest_of, items}
use jetsocket.Ring.Represents.{Represents, init-Represents}
use jetsocket.Ring.Refine.{
  Agrees, push_refines, pop_refines, peek_refines, clear_refines, reset_refines,
}
use jetsocket.Ring.Drain.{drain_lem, drain_with_sequences_lem}

-- The calls of a ring buffer.
pub data Call {ℓ} (T S : Type ℓ) : Type ℓ where
  pushes : Option T → Option S → Call T S
  pops peeks drains drains_with_sequences clears resets : Call T S

-- What a call gives back.
pub data Answer {ℓ} (T S : Type ℓ) : Type ℓ where
  pushed : Result Bool → Answer T S
  popped : Option T → Answer T S
  drained : List T → Answer T S
  drained_with_sequences : List (Entry T S) → Answer T S
  cleared counter_reset : Answer T S
  peeked : Option T → Answer T S

abbrev pub on_answer {ℓ κ μ} : {A : Type ℓ} {B : Type κ} {R : Type μ} → (A → B) → A × R → B × R
on_answer f (a, r) = (f a, r)

module _ {ℓ} {T S : Type ℓ} where
  unfoldable pub call : RingBuffer T S → Call T S → Answer T S × RingBuffer T S
  call r (pushes item sequence_id) = on_answer pushed (push item sequence_id r)
  call r pops = on_answer popped (pop r)
  call r drains = on_answer drained (drain r)
  call r drains_with_sequences = on_answer drained_with_sequences (drain_with_sequences r)
  call r clears = (cleared, clear r)
  call r peeks = (peeked (peek r), r)
  call r resets = (counter_reset, reset_dropped_counter r)

  unfoldable pub run : RingBuffer T S → List (Call T S) → List (Answer T S) × RingBuffer T S
  run r [] = ([], r)
  run r (c ∷ cs) = let (a, r') = call r c in let (answers, r'') = run r' cs in (a ∷ answers, r'')

module _ {ℓ} {T S : Type ℓ} (capacity : ℕ) (policy : OverflowPolicy) where
  -- The same calls on the bounded queue.
  unfoldable pub queue_call : Queue T S → Call T S → Answer T S × Queue T S
  queue_call q (pushes item sequence_id) =
      on_answer pushed (Queue.push capacity policy (item, sequence_id) q)
  queue_call q pops = on_answer popped (Queue.pop q)
  queue_call q drains = (drained (somes (items q.entries)), record q { entries = [] })
  queue_call q drains_with_sequences = (drained_with_sequences q.entries, record q { entries = [] })
  queue_call q clears = (cleared, record q { entries = [] })
  queue_call q peeks = (peeked (first_item q.entries), q)
  queue_call q resets = (counter_reset, record q { dropped = 0 })

  unfoldable pub queue_run : Queue T S → List (Call T S) → List (Answer T S) × Queue T S
  queue_run q [] = ([], q)
  queue_run q (c ∷ cs) =
      let (a, q') = queue_call q c in let (answers, q'') = queue_run q' cs in (a ∷ answers, q'')

module _ {ℓ} {T S : Type ℓ} where
  -- The capacity and the policy of a ring never change.
  abbrev Fixed : RingBuffer T S → RingBuffer T S → Type 0
  Fixed r s = (s.capacity ≡ r.capacity) × (s.policy ≡ r.policy)

  push-Fixed :
      (item : Option T) (sequence_id : Option S) (r : RingBuffer T S)
      → Fixed r (push item sequence_id r).1
  unfolding push
  push-Fixed item sequence_id r = ground arith

  pop-Fixed : (r : RingBuffer T S) → Fixed r (pop r).1
  unfolding pop
  pop-Fixed r = ground arith

  drain_loop-Fixed :
      (fuel : ℕ) (acc : List T) (r : RingBuffer T S) → Fixed r (drain_loop fuel acc r).1
  unfolding drain_loop
  drain_loop-Fixed zero acc r = (refl, refl)
  drain_loop-Fixed (suc fuel) acc r =
      let (item, r') = pop r in
      ground (arith, drain_loop-Fixed fuel (append_some acc item) r', pop-Fixed r)

  sequences_loop-Fixed :
      (fuel : ℕ) (acc : List (Entry T S)) (r : RingBuffer T S)
      → Fixed r (sequences_loop fuel acc r).1
  unfolding sequences_loop advance
  sequences_loop-Fixed zero acc r = (refl, refl)
  sequences_loop-Fixed (suc fuel) acc r =
      ground (
        arith,
        sequences_loop-Fixed fuel (append_some acc (get_or r.buffer r.head none)) (advance r),
      )

  call-Fixed : (r : RingBuffer T S) (c : Call T S) → Fixed r (call r c).1
  unfolding call clear drain drain_with_sequences reset_dropped_counter
  call-Fixed r (pushes item sequence_id) = push-Fixed item sequence_id r
  call-Fixed r pops = pop-Fixed r
  call-Fixed r drains = drain_loop-Fixed r.len [] r
  call-Fixed r drains_with_sequences = sequences_loop-Fixed r.len [] r
  call-Fixed r clears = (refl, refl)
  call-Fixed r peeks = (refl, refl)
  call-Fixed r resets = (refl, refl)

  call_refines :
      {r : RingBuffer T S} {q : Queue T S} (c : Call T S)
      → Represents r q
      → Agrees (call r c) (queue_call r.capacity r.policy q c)
  unfolding call queue_call
  call_refines (pushes item sequence_id) h =
      let p = push_refines item sequence_id h in (ap pushed p.0, p.1)
  call_refines pops h = let p = pop_refines h in (ap popped p.0, p.1)
  call_refines drains h = let p = drain_lem h in (ap drained p.0, p.1)
  call_refines drains_with_sequences h =
      let p = drain_with_sequences_lem h in (ap drained_with_sequences p.0, p.1)
  call_refines clears h = (refl, clear_refines h)
  call_refines peeks h = (ap peeked (peek_refines h), h)
  call_refines resets h = (refl, reset_refines h)

  call_at :
      {r : RingBuffer T S} {q : Queue T S} (c : Call T S) (capacity : ℕ) (policy : OverflowPolicy)
      → Represents r q
      → r.capacity ≡ capacity
      → r.policy ≡ policy
      → Agrees (call r c) (queue_call capacity policy q c)
  call_at {r} {q} c capacity policy h e f =
      subst (λ k. Agrees (call r c) (queue_call k policy q c)) e
        (subst (λ p. Agrees (call r c) (queue_call r.capacity p q c)) f (call_refines c h))

  run_at :
      (cs : List (Call T S)) {r : RingBuffer T S} {q : Queue T S} (capacity : ℕ)
      (policy : OverflowPolicy)
      → Represents r q
      → r.capacity ≡ capacity
      → r.policy ≡ policy
      → Agrees (run r cs) (queue_run capacity policy q cs)
  unfolding run queue_run
  run_at [] capacity policy h e f = (refl, h)
  run_at (c ∷ cs) {r} capacity policy h e f =
      let fixed = call-Fixed r c in
      let p = call_at c capacity policy h e f in
      let rest = run_at cs capacity policy p.1 (fixed.0 ∙ e) (fixed.1 ∙ f) in
      (ap₂ ◌∷◌ p.0 rest.0, rest.1)

  -- Every sequence of calls on a new ring buffer of positive capacity is answered as the bounded
  -- queue of that capacity and policy answers it, values and exceptions alike, and the buffer ends
  -- holding the queue's entries and its count of dropped entries.
  pub run_refines :
      (capacity : ℕ) (policy : OverflowPolicy) (cs : List (Call T S))
      → 0 < capacity
      → Agrees
          (run (init capacity policy) cs)
          (queue_run capacity policy (record { entries = []; dropped = 0 }) cs)
  unfolding init
  run_refines capacity policy cs pos =
      run_at cs capacity policy (init-Represents capacity policy pos) refl refl
