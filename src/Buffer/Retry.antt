-- ===== src/Buffer/Retry.antt =====
-- A message of jetsocket/buffer.py that was not stored, pushed again.
use jetsocket.Prelude.{
  ◌<◌, ◌≡◌, ◌≢◌, refl, sym, ap, ◌∙◌, Bool, true, false, Option, some, Eq, arith, ==_iff, if_true,
}
use jetsocket.Exceptions.{Result, ok}
use jetsocket.Ring.Defs
use jetsocket.Ring.Defs.{RingBuffer, OverflowPolicy, drop_oldest, drop_newest, error}
use jetsocket.Buffer.Defs.{
  MessageBuffer, contains, pop, push, push_through, is_duplicate, track_sequence, note_sequence,
}
use jetsocket.Buffer.Window.{evict_over-eq-last_n, contains-last_n_append}

module _ {ℓ} {T S : Type ℓ} where
  full_keeps_slots :
      (policy : OverflowPolicy) (message : Option T) (s : Option S) (r : RingBuffer T S)
      → policy ≢ drop_oldest
      → (Defs.push_full policy message s r).1.buffer ≡ r.buffer
  unfolding Defs.push_full
  full_keeps_slots drop_oldest message s r h = absurd (h refl)
  full_keeps_slots drop_newest message s r h = refl
  full_keeps_slots error message s r h = refl

  push_keeps_slots :
      (message : Option T) (s : Option S) (r : RingBuffer T S)
      → r.len ≡ r.capacity
      → r.policy ≢ drop_oldest
      → (Defs.push message s r).1.buffer ≡ r.buffer
  unfolding Defs.push
  push_keeps_slots message s r full h =
      ap (λ (p : Result Bool × RingBuffer T S). p.1.buffer)
        (if_true _ _ _ ((==_iff r.len r.capacity).1 full))
      ∙ full_keeps_slots r.policy message s r h

  full_refuses :
      (policy : OverflowPolicy) (message : Option T) (s : Option S) (r : RingBuffer T S)
      → policy ≢ drop_oldest
      → (Defs.push_full policy message s r).0 ≢ ok true
  unfolding Defs.push_full
  full_refuses drop_oldest message s r h e = h refl
  full_refuses drop_newest message s r h e = cc
  full_refuses error message s r h e = cc

  full_not_true :
      (message : Option T) (s : Option S) (r : RingBuffer T S)
      → r.len ≡ r.capacity
      → r.policy ≢ drop_oldest
      → (Defs.push message s r).0 ≢ ok true
  unfolding Defs.push
  full_not_true message s r full h e = full_refuses r.policy message s r h (
      ap (λ (p : Result Bool × RingBuffer T S). p.0)
        (sym (if_true _ _ _ ((==_iff r.len r.capacity).1 full)))
      ∙ e)

module _ {ℓ} {T S : Type ℓ} ⦃e : Eq S⦄ where
  seen_after_track :
      (s : S) (b : MessageBuffer T S)
      → 0 < b.config.dedup_window
      → contains (track_sequence s b).seen_sequences s ≡ true
  unfolding track_sequence
  seen_after_track s b pos =
      rw evict_over-eq-last_n (contains-last_n_append b.config.dedup_window _ s pos)

  push_new-eq :
      (message : Option T) (s : S) (b : MessageBuffer T S)
      → b.config.enable_dedup ≡ true
      → contains b.seen_sequences s ≡ false
      → push message (some s) b
        ≡ push_through message (some s) (record (track_sequence s b) { last_sequence_id = some s })
  unfolding push is_duplicate note_sequence track_sequence
  push_new-eq message s b on new = ground arith

  push_dup-eq :
      (message : Option T) (s : S) (b : MessageBuffer T S)
      → b.config.enable_dedup ≡ true
      → contains b.seen_sequences s ≡ true
      → push message (some s) b ≡ (ok false, b)
  unfolding push is_duplicate
  push_dup-eq message s b on old = ground arith

  -- With deduplication on and the ring full under a policy other than drop_oldest, a new message
  -- is not stored, by False or by an exception; and the same push made again, after a pop has made
  -- room, gives False and still does not store it. The first push has left its ID as the last one.
  pub retry_refused :
      (message : Option T) (s : S) (b : MessageBuffer T S)
      → b.config.enable_dedup ≡ true
      → 0 < b.config.dedup_window
      → contains b.seen_sequences s ≡ false
      → b.buffer.len ≡ b.buffer.capacity
      → b.buffer.policy ≢ drop_oldest
      → let (r, first) = push message (some s) b in
        let (item, popped) = pop first in
        (r ≢ ok true)
        × (first.buffer.buffer ≡ b.buffer.buffer)
        × (first.last_sequence_id ≡ some s)
        × (push message (some s) popped ≡ (ok false, popped))
  unfolding pop
  retry_refused message s b on pos new full policy = rw (push_new-eq message s b on new) (
      unfold push_through track_sequence in
      (
        full_not_true message (some s) b.buffer full policy,
        push_keeps_slots message (some s) b.buffer full policy,
        refl,
        push_dup-eq message s _ on (seen_after_track s b pos),
      ))
