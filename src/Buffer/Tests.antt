-- ===== src/Buffer/Tests.antt =====
-- The theorems about the message buffer at concrete inputs, and runs of its methods.
use jetsocket.Prelude.{
  ℕ, ◌≤◌, ◌≡◌, ◌≢◌, refl, true, false, some, List, [], ◌∷◌, length, nat_eq, arith, if◌then◌else◌,
}
use jetsocket.Exceptions.{ok}
use jetsocket.Ring.Defs
use jetsocket.Ring.Defs.{drop_oldest, drop_newest, error}
use jetsocket.Buffer.Defs.{BufferConfig, MessageBuffer, contains, init, push, push_through, pop}
use jetsocket.Buffer.Window.{last_n, IsDistinct}
use jetsocket.Buffer.Calls.{Call, pushes, pops, run, after, history}
use jetsocket.Buffer.Dedup.{dedup_exact, window_bounded, noted}
use jetsocket.Buffer.Retry.{retry_refused}

abbrev config : BufferConfig
config = record { capacity = 1; overflow_policy = error; enable_dedup = true; dedup_window = 2 }

abbrev script : List (Call ℕ ℕ)
script =
    pushes (some 10) (some 1)
    ∷ pops
    ∷ pushes (some 11) (some 2)
    ∷ pops
    ∷ pushes (some 12) (some 3)
    ∷ pops
    ∷ []

dedup_exact_example : push (some 13) (some 2) (run (init config) script) ≡ (
    if contains (last_n 2 (history 2 [] script)) 2
    then (ok false, run (init config) script)
    else push_through
        (some 13)
        (some 2)
        (noted config (history 2 [] script) 2 (run (init config) script)))
dedup_exact_example = dedup_exact config script (some 13) 2 refl

window_bounded_example :
    (length (run (init config) script).seen_sequences ≤ 2)
    × IsDistinct (run (init config) script).seen_sequences
window_bounded_example = window_bounded config script refl

-- 1 has left the window of two, 2 has not.
run-script : (run (init config) script).seen_sequences ≡ 2 ∷ 3 ∷ []
unfolding run after init push pop Defs.push Defs.pop Defs.init
run-script = refl

abbrev full : MessageBuffer ℕ ℕ
full = record {
  config = config;
  buffer = record {
    buffer = some (some 10, some 1) ∷ [];
    head = 0;
    tail = 0;
    len = 1;
    capacity = 1;
    policy = error;
    total_dropped = 0;
  };
  last_sequence_id = some 1;
  seen_sequences = 1 ∷ [];
}

retry_refused_example :
    let (r, first) = push (some 11) (some 2) full in
    let (item, popped) = pop first in
    (r ≢ ok true)
    × (first.buffer.buffer ≡ full.buffer.buffer)
    × (first.last_sequence_id ≡ some 2)
    × (push (some 11) (some 2) popped ≡ (ok false, popped))
retry_refused_example =
    retry_refused (some 11) 2 full refl (omega arith) refl refl (λ e. ground arith)
