-- ===== src/Codec/Chunks.antt =====
-- However the octets are cut into chunks, `feed` finds the same frames.
use jetsocket.Prelude.{
  ℕ, zero, suc, ◌+◌, ◌≤◌, ◌≡◌, refl, sym, ap, subst, ◌∙◌, arith, Option, none, some, List, [], ◌∷◌,
  ◌++◌, length, drop, drop-append,
}
use jetsocket.Codec.Opcode.{Frame}
use jetsocket.Codec.Parse.{Parse, need_more, bad, parsed, parse_frame, ParseError}
use jetsocket.Codec.Prefix.{parse_frame-append}
use jetsocket.Codec.Valid.{IsSound, parse_frame-IsSound}
use jetsocket.Codec.Feed.{Loop, add_frame, ended, feed_loop}
use jetsocket.Codec.Fuel.{shorter, feed_loop-parsed, feed_loop_waits, feed_loop-bad}

-- The loop, with as much fuel as the buffer needs.
abbrev pub run : ℕ → List ℕ → Loop
run max buf = feed_loop (length buf) max buf

-- More octets for a loop that has ended: none where it ended with an error.
abbrev pub join : Loop → Loop → Loop
join before after = record {
  frames = before.frames ++ after.frames;
  total_consumed = before.total_consumed + after.total_consumed;
  buffer = after.buffer;
  error = after.error;
}

abbrev pub resume_on : ℕ → Loop → List ℕ → Option ParseError → Loop
resume_on max loop more none = join loop (run max (loop.buffer ++ more))
resume_on max loop more (some error) = record {
  frames = loop.frames;
  total_consumed = loop.total_consumed;
  buffer = loop.buffer ++ more;
  error = some error;
}

abbrev pub resume : ℕ → Loop → List ℕ → Loop
resume max loop more = resume_on max loop more loop.error

-- Loops are equal when their counts are, all else being the same.
abbrev counted : List Frame → List ℕ → Option ParseError → ℕ → Loop
counted frames buf error n = record {
  frames = frames;
  total_consumed = n;
  buffer = buf;
  error = error;
}

join_nothing : (buf : List ℕ) (after : Loop) → join (ended buf none) after ≡ after
join_nothing buf after = ap (counted after.frames after.buffer after.error) (omega arith)

resume_on-add_frame :
    (max : ℕ) (frame : Frame) (consumed : ℕ) (loop : Loop) (more : List ℕ) (o : Option ParseError)
    → resume_on max (add_frame frame consumed loop) more o
      ≡ add_frame frame consumed (resume_on max loop more o)
resume_on-add_frame max frame consumed loop more none =
    let after : Loop = run max (loop.buffer ++ more) in
    ap (counted (frame ∷ loop.frames ++ after.frames) after.buffer after.error) (omega arith)
resume_on-add_frame max frame consumed loop more (some error) = refl

-- An answer is not a wait.
abbrev Answers : Parse → Type 0
Answers need_more = ⊥
Answers (bad error) = Unit {0}
Answers (parsed frame consumed) = Unit {0}

later :
    (max : ℕ) (buf more : List ℕ) {r : Parse}
    → parse_frame max buf ≡ r
    → Answers r
    → parse_frame max (buf ++ more) ≡ r
later max buf more e a = parse_frame-append max buf more (λ n. subst Answers (sym e ∙ n) a) ∙ e

run_parsed :
    (max : ℕ) (buf more : List ℕ) (frame : Frame) (consumed : ℕ)
    → parse_frame max buf ≡ parsed frame consumed
    → run max (drop consumed buf ++ more) ≡ resume max (run max (drop consumed buf)) more
    → run max (buf ++ more) ≡ resume max (run max buf) more
run_parsed max buf more frame consumed e ih =
    let s : IsSound max buf (parsed frame consumed) =
      subst (IsSound max buf) e (parse_frame-IsSound max buf) in
    let rest : List ℕ = drop consumed buf in
    feed_loop-parsed (length (buf ++ more)) max (buf ++ more) frame consumed
      (later max buf more e tt) (omega arith)
    ∙ ap (λ (l : List ℕ). add_frame frame consumed (run max l))
        (drop-append consumed buf more s.1.1)
    ∙ ap (add_frame frame consumed) ih
    ∙ sym (resume_on-add_frame max frame consumed (run max rest) more (run max rest).error)
    ∙ ap (λ (l : Loop). resume max l more)
        (sym (feed_loop-parsed (length buf) max buf frame consumed e (omega arith)))

run_cases :
    (max : ℕ) (buf more : List ℕ) (r : Parse)
    → parse_frame max buf ≡ r
    → ((frame : Frame) (consumed : ℕ)
        → parse_frame max buf ≡ parsed frame consumed
        → run max (drop consumed buf ++ more) ≡ resume max (run max (drop consumed buf)) more)
    → run max (buf ++ more) ≡ resume max (run max buf) more
run_cases max buf more need_more e h = sym (
    ap (λ (l : Loop). resume max l more) (feed_loop_waits (length buf) max buf e)
    ∙ join_nothing buf (run max (buf ++ more)))
run_cases max buf more (bad error) e h =
    feed_loop-bad (length (buf ++ more)) max (buf ++ more) error (later max buf more e tt)
      (omega arith)
    ∙ sym (
        ap (λ (l : Loop). resume max l more)
          (feed_loop-bad (length buf) max buf error e (omega arith)))
run_cases max buf more (parsed frame consumed) e h =
    run_parsed max buf more frame consumed e (h frame consumed e)

-- Parsing all the octets at once is parsing the first ones and going on with the others, unless the
-- first ones already hold an error.
pub run-append :
    (fuel max : ℕ) (buf more : List ℕ)
    → length buf ≤ fuel
    → run max (buf ++ more) ≡ resume max (run max buf) more
run-append zero max [] more le =
    run_cases max [] more (parse_frame max []) refl (λ frame consumed e.
      let s : IsSound max [] (parsed frame consumed) =
        subst (IsSound max []) e (parse_frame-IsSound max []) in
      absurd (omega (arith, s.1.0, s.1.1)))
run-append zero max (x ∷ buf) more le = absurd (omega arith)
run-append (suc fuel) max buf more le =
    run_cases max buf more (parse_frame max buf) refl
      (λ frame consumed e. run-append fuel max (drop consumed buf) more (shorter max buf e le))
