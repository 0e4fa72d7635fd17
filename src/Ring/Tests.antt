-- ===== src/Ring/Tests.antt =====
-- The theorems about the ring buffer at concrete inputs, and runs of its methods.
use jetsocket.Prelude.{ℕ, ◌≡◌, refl, true, none, some, List, [], ◌∷◌, arith}
use jetsocket.Exceptions.{ok, err, buffer_overflow_error}
use jetsocket.Ring.Defs.{
  RingBuffer, drop_oldest, error, init, push, pop, peek, drain_loop, drain, clear,
  reset_dropped_counter,
}
use jetsocket.Ring.Refine.{Agrees}
use jetsocket.Ring.Trace.{
  Call, pushes, pops, peeks, drains, clears, resets, Answer, run, queue_run, call, run_refines,
}

-- 8 (which is None here), then 9, round the end of the buffer.
abbrev wrapped : RingBuffer ℕ ℕ
wrapped = record {
  buffer = some (some 9, some 4) ∷ none ∷ some (none, some 3) ∷ [];
  head = 2;
  tail = 1;
  len = 2;
  capacity = 3;
  policy = drop_oldest;
  total_dropped = 5;
}

-- The None is not among what `drain` gives.
drained : (drain wrapped).0 ≡ 9 ∷ []
unfolding drain drain_loop pop
drained = refl

abbrev script : List (Call ℕ ℕ)
script =
    pushes (some 1) (some 7)
    ∷ pushes (some 2) none
    ∷ pushes (some 3) none
    ∷ peeks
    ∷ pops
    ∷ pops
    ∷ pops
    ∷ pushes none none
    ∷ drains
    ∷ clears
    ∷ resets
    ∷ []

run_refines_example :
    Agrees
      (run (init 2 error) script)
      (queue_run 2 error (record { entries = []; dropped = 0 }) script)
run_refines_example = run_refines 2 error script (omega arith)

-- The third push raises, and the None at the end is not among what `drain` gives.
run-script :
    (run (init 2 error) script).0
    ≡ Answer.pushed (ok true)
      ∷ Answer.pushed (ok true)
      ∷ Answer.pushed (err (buffer_overflow_error 2 2))
      ∷ Answer.peeked (some 1)
      ∷ Answer.popped (some 1)
      ∷ Answer.popped (some 2)
      ∷ Answer.popped none
      ∷ Answer.pushed (ok true)
      ∷ Answer.drained []
      ∷ Answer.cleared
      ∷ Answer.counter_reset
      ∷ []
unfolding run call init push pop peek drain clear reset_dropped_counter
run-script = refl
