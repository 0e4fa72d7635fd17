-- ===== src/Codec/Fuel.antt =====
-- The loop of `feed` ends by itself: more fuel than the buffer has octets changes nothing.
use jetsocket.Prelude.{
  ℕ, zero, suc, ◌+◌, ◌≤◌, ◌≡◌, refl, sym, ap, subst, ◌∙◌, arith, Option, none, some, List, [], ◌∷◌,
  length, drop, drop-length,
}
use jetsocket.Codec.Opcode.{Frame}
use jetsocket.Codec.Parse.{Parse, need_more, bad, parsed, parse_frame, ParseError}
use jetsocket.Codec.Valid.{IsValid, IsSound, parse_frame-IsSound}
use jetsocket.Codec.Feed.{Loop, add_frame, ended, loop_on, feed_loop}

pub shorter :
    (max : ℕ) (buf : List ℕ) {frame : Frame} {consumed fuel : ℕ}
    → parse_frame max buf ≡ parsed frame consumed
    → length buf ≤ suc fuel
    → length (drop consumed buf) ≤ fuel
shorter max buf {frame} {consumed} e le =
    let s : IsSound max buf (parsed frame consumed) =
      subst (IsSound max buf) e (parse_frame-IsSound max buf) in
    omega (arith, s.1.0, s.1.1, drop-length consumed buf)

-- A buffer without octets has no frame.
feed_loop-empty :
    (fuel max : ℕ) (buf : List ℕ) → length buf ≤ 0 → feed_loop fuel max buf ≡ ended buf none
unfolding feed_loop loop_on parse_frame
feed_loop-empty zero max buf le = refl
feed_loop-empty (suc fuel) max [] le = refl
feed_loop-empty (suc fuel) max (x ∷ buf) le = absurd (omega arith)

-- What follows a frame decides the rest of the loop.
loop_on-same :
    (again other : List ℕ → Loop) (buf : List ℕ) (r : Parse)
    → ((frame : Frame) (consumed : ℕ)
        → r ≡ parsed frame consumed
        → again (drop consumed buf) ≡ other (drop consumed buf))
    → loop_on again buf r ≡ loop_on other buf r
unfolding loop_on
loop_on-same again other buf need_more h = refl
loop_on-same again other buf (bad error) h = refl
loop_on-same again other buf (parsed frame consumed) h =
    ap (add_frame frame consumed) (h frame consumed refl)

pub feed_loop-fuel :
    (a b max : ℕ) (buf : List ℕ)
    → length buf ≤ a
    → length buf ≤ b
    → feed_loop a max buf ≡ feed_loop b max buf
unfolding feed_loop
feed_loop-fuel zero b max buf p q = sym (feed_loop-empty b max buf p)
feed_loop-fuel (suc a) zero max buf p q = feed_loop-empty (suc a) max buf q
feed_loop-fuel (suc a) (suc b) max buf p q =
    loop_on-same (feed_loop a max) (feed_loop b max) buf (parse_frame max buf) (λ frame consumed e.
      feed_loop-fuel a b max (drop consumed buf) (shorter max buf e p) (shorter max buf e q))

-- A buffer that waits, and one with an error at the front.
pub feed_loop_waits :
    (fuel max : ℕ) (buf : List ℕ)
    → parse_frame max buf ≡ need_more
    → feed_loop fuel max buf ≡ ended buf none
unfolding feed_loop loop_on
feed_loop_waits zero max buf e = refl
feed_loop_waits (suc fuel) max buf e = ap (loop_on (feed_loop fuel max) buf) e

parse_frame-empty : (max : ℕ) → parse_frame max [] ≡ need_more
unfolding parse_frame
parse_frame-empty max = refl

abbrev IsBad : Parse → Type 0
IsBad need_more = ⊥
IsBad (bad error) = Unit {0}
IsBad (parsed frame consumed) = ⊥

pub feed_loop-bad :
    (fuel max : ℕ) (buf : List ℕ) (error : ParseError)
    → parse_frame max buf ≡ bad error
    → length buf ≤ fuel
    → feed_loop fuel max buf ≡ ended buf (some error)
unfolding feed_loop loop_on
feed_loop-bad zero max [] error e le = absurd (subst IsBad (sym e ∙ parse_frame-empty max) tt)
feed_loop-bad zero max (x ∷ buf) error e le = absurd (omega arith)
feed_loop-bad (suc fuel) max buf error e le = ap (loop_on (feed_loop fuel max) buf) e

-- A frame at the front of the buffer, whatever fuel is given that is enough.
pub feed_loop-parsed :
    (fuel max : ℕ) (buf : List ℕ) (frame : Frame) (consumed : ℕ)
    → parse_frame max buf ≡ parsed frame consumed
    → length buf ≤ fuel
    → feed_loop fuel max buf
      ≡ add_frame frame consumed (feed_loop (length (drop consumed buf)) max (drop consumed buf))
unfolding feed_loop loop_on
feed_loop-parsed zero max buf frame consumed e le =
    let s : IsSound max buf (parsed frame consumed) =
      subst (IsSound max buf) e (parse_frame-IsSound max buf) in
    absurd (omega (arith, s.1.0, s.1.1))
feed_loop-parsed (suc fuel) max buf frame consumed e le =
    let rest : List ℕ = drop consumed buf in
    ap (loop_on (feed_loop fuel max) buf) e
    ∙ ap (add_frame frame consumed)
        (feed_loop-fuel fuel (length rest) max rest (shorter max buf e le) (omega arith))

-- Why the loop ended.
abbrev pub stop : Option ParseError → Parse
stop none = need_more
stop (some error) = bad error

abbrev pub AllValid : ℕ → List Frame → Type 0
AllValid max [] = Unit {0}
AllValid max (frame ∷ frames) = IsValid max frame × AllValid max frames

abbrev pub IsDone : ℕ → List ℕ → Loop → Type 0
IsDone max buf loop =
    (parse_frame max loop.buffer ≡ stop loop.error)
    × ((loop.total_consumed + length loop.buffer ≡ length buf) × AllValid max loop.frames)

loop_on-IsDone :
    (max : ℕ) (again : List ℕ → Loop) (buf : List ℕ) (r : Parse)
    → parse_frame max buf ≡ r
    → ((frame : Frame) (consumed : ℕ)
        → r ≡ parsed frame consumed
        → IsDone max (drop consumed buf) (again (drop consumed buf)))
    → IsDone max buf (loop_on again buf r)
unfolding loop_on
loop_on-IsDone max again buf need_more e h = (e, (omega arith, tt))
loop_on-IsDone max again buf (bad error) e h = (e, (omega arith, tt))
loop_on-IsDone max again buf (parsed frame consumed) e h =
    let d : IsDone max (drop consumed buf) (again (drop consumed buf)) = h frame consumed refl in
    let s : IsSound max buf (parsed frame consumed) =
      subst (IsSound max buf) e (parse_frame-IsSound max buf) in
    (d.0, (omega (arith, d.1.0, s.1.1, drop-length consumed buf), (s.0, d.1.1)))

-- With a unit of fuel for each octet, the loop of `feed` does not run out: it ends where the parser
-- waits for more octets or has found an error in what is left of the buffer. The octets it counts as
-- consumed and those left are all the buffer's, and every frame it collected is valid.
pub feed_loop-IsDone :
    (fuel max : ℕ) (buf : List ℕ) → length buf ≤ fuel → IsDone max buf (feed_loop fuel max buf)
unfolding feed_loop loop_on
feed_loop-IsDone zero max [] le = (parse_frame-empty max, (omega arith, tt))
feed_loop-IsDone zero max (x ∷ buf) le = absurd (omega arith)
feed_loop-IsDone (suc fuel) max buf le =
    loop_on-IsDone max (feed_loop fuel max) buf (parse_frame max buf) refl
      (λ frame consumed e. feed_loop-IsDone fuel max (drop consumed buf) (shorter max buf e le))
