-- ===== src/Buffer/Drops.antt =====
-- The count of dropped messages in jetsocket/buffer.py: `push` never lowers it, `drain` keeps it.
use jetsocket.Prelude.{
  ℕ, zero, suc, ◌≤◌, ◌≡◌, refl, subst, ◌∙◌, Bool, ◌&&◌, Option, none, some, List, ◌==◌, Eq,
  if_either, arith,
}
use jetsocket.Ring.Defs as Ring
use jetsocket.Ring.Defs.{RingBuffer, OverflowPolicy, drop_oldest, drop_newest, error, append_some}
use jetsocket.Exceptions.{Result}
use jetsocket.Buffer.Defs.{
  MessageBuffer, track_sequence, note_sequence, is_duplicate, push_through, push, drain,
}

module _ {ℓ} {T S : Type ℓ} where
  pop-dropped : (r : RingBuffer T S) → (Ring.pop r).1.total_dropped ≡ r.total_dropped
  unfolding Ring.pop Ring.advance
  pop-dropped r =
      if_either (λ (p : Option T × RingBuffer T S). p.1.total_dropped ≡ r.total_dropped)
        (r.len == 0) (λ _. refl) (λ _. refl)

  drain_loop-dropped :
      (fuel : ℕ) (items : List T) (r : RingBuffer T S)
      → (Ring.drain_loop fuel items r).1.total_dropped ≡ r.total_dropped
  unfolding Ring.drain_loop
  drain_loop-dropped zero items r = refl
  drain_loop-dropped (suc fuel) items r =
      if_either (λ (p : List T × RingBuffer T S). p.1.total_dropped ≡ r.total_dropped) (r.len == 0)
        (λ _. refl)
        (λ _.
          drain_loop-dropped fuel (append_some items (Ring.pop r).0) (Ring.pop r).1 ∙ pop-dropped r)

  pub drain-dropped :
      (b : MessageBuffer T S) → (drain b).1.buffer.total_dropped ≡ b.buffer.total_dropped
  unfolding drain Ring.drain
  drain-dropped b = drain_loop-dropped b.buffer.len _ b.buffer

  push_full-dropped :
      (p : OverflowPolicy) (item : Option T) (s : Option S) (r : RingBuffer T S)
      → r.total_dropped ≤ (Ring.push_full p item s r).1.total_dropped
  unfolding Ring.push_full Ring.store Ring.evict
  push_full-dropped drop_oldest item s r = omega arith
  push_full-dropped drop_newest item s r = omega arith
  push_full-dropped error item s r = omega arith

  push_through-dropped :
      (item : Option T) (s : Option S) (b : MessageBuffer T S)
      → b.buffer.total_dropped ≤ (push_through item s b).1.buffer.total_dropped
  unfolding push_through Ring.push Ring.store
  push_through-dropped item s b =
      if_either (λ (p : Result Bool × RingBuffer T S). b.buffer.total_dropped ≤ p.1.total_dropped)
        (b.buffer.len == b.buffer.capacity) (λ _. push_full-dropped b.buffer.policy item s b.buffer)
        (λ _. omega arith)

module _ {ℓ} {T S : Type ℓ} ⦃e : Eq S⦄ where
  note_sequence-buffer : (s : S) (b : MessageBuffer T S) → (note_sequence s b).buffer ≡ b.buffer
  unfolding note_sequence track_sequence
  note_sequence-buffer s b =
      if_either (λ (b' : MessageBuffer T S). b'.buffer ≡ b.buffer) b.config.enable_dedup (λ _. refl)
        (λ _. refl)

  pub push-dropped :
      (item : Option T) (s : Option S) (b : MessageBuffer T S)
      → b.buffer.total_dropped ≤ (push item s b).1.buffer.total_dropped
  unfolding push
  push-dropped item none b = push_through-dropped item none b
  push-dropped item (some s) b =
      if_either
        (λ (p : Result Bool × MessageBuffer T S). b.buffer.total_dropped ≤ p.1.buffer.total_dropped)
        (b.config.enable_dedup && is_duplicate b s) (λ _. omega arith)
        (λ _.
          subst
            (λ (r : RingBuffer T S).
              r.total_dropped
              ≤ (push_through item (some s) (note_sequence s b)).1.buffer.total_dropped)
            (note_sequence-buffer s b) (push_through-dropped item (some s) (note_sequence s b)))
