-- ===== src/Heartbeat/Cycle.antt =====
-- When a cycle of jetsocket/heartbeat.py times out.
use jetsocket.Prelude.{
  ◌≡◌, refl, sym, ap, subst, ◌∙◌, Bool, true, false, ◌||◌, Option, none, some, List, [], ◌∷◌, Eq,
  if◌then◌else◌, if_true, if_false, Bool-cases, inl, inr, true≢false,
}
use jetsocket.Exceptions.{ok}
use jetsocket.Float.{Float}
use jetsocket.Heartbeat.Defs.{
  Heartbeat, Next, waits_for_pong, waits_interval, times_out, signal, measure, ping, finish, fits,
  pong_for, on_pong, matched, on_application_message,
}

-- What arrives during a wait, with the reading of the clock: a pong frame, or an application message
-- with what the matcher says of it, where there is one.
pub data Arrival (A P : Type 0) : Type 0 where
  pong : A → P → Arrival A P
  application : A → Option Bool → Arrival A P

module _ {A P : Type 0} ⦃e : Eq P⦄ where
  -- A pong frame with the payload, or a message that is a pong to the matcher.
  abbrev pub is_answer : P → Arrival A P → Bool
  is_answer payload (pong now p) = e.beq p payload
  is_answer payload (application now none) = false
  is_answer payload (application now (some is_pong)) = is_pong

  abbrev pub answers : P → List (Arrival A P) → Bool
  answers payload [] = false
  answers payload (a ∷ arrived) = is_answer payload a || answers payload arrived

module _ {f : Float} {P : Type 0} ⦃e : Eq P⦄ where
  unfoldable pub arrive : Arrival f.F P → Heartbeat f P → Heartbeat f P
  arrive (pong now payload) h = (on_pong now payload h).1
  arrive (application now is_pong) h = (on_application_message now is_pong h).1

  unfoldable pub arrivals : List (Arrival f.F P) → Heartbeat f P → Heartbeat f P
  arrivals [] h = h
  arrivals (a ∷ arrived) h = arrivals arrived (arrive a h)

  -- A pong that comes when no ping is out changes nothing.
  late_one : (a : Arrival f.F P) (h : Heartbeat f P) → h.last_ping_time ≡ none → arrive a h ≡ h
  unfolding arrive on_pong pong_for on_application_message matched
  late_one (pong now payload) h out = ap (λ o. (pong_for now payload o h).1) out
  late_one (application now none) h out = refl
  late_one (application now (some false)) h out = refl
  late_one (application now (some true)) h out = ap (λ o. matched now o h) out

  late :
      (arrived : List (Arrival f.F P)) (h : Heartbeat f P)
      → h.last_ping_time ≡ none
      → arrivals arrived h ≡ h
  unfolding arrivals
  late [] h out = refl
  late (a ∷ arrived) h out = ap (arrivals arrived) (late_one a h out) ∙ late arrived h out

  -- A heartbeat that waits for an answer to its ping.
  abbrev IsWaiting : f.F → Heartbeat f P → Type 0
  IsWaiting sent h =
      (h.last_ping_time ≡ some sent)
      × ((h.pending_payload ≡ some h.payload) × ((h.pong_event ≡ some false) × (h.running ≡ true)))

  -- One that has got it.
  abbrev IsAnswered : Heartbeat f P → Type 0
  IsAnswered h = (h.last_ping_time ≡ none) × ((h.pong_event ≡ some true) × (h.running ≡ true))

  answered :
      (a : Arrival f.F P) (sent : f.F) (h : Heartbeat f P)
      → IsWaiting sent h
      → is_answer h.payload a ≡ true
      → IsAnswered (arrive a h)
  unfolding arrive on_pong pong_for on_application_message matched measure
  answered (pong now p) sent h w answer =
      let got : (on_pong now p h).1 ≡ record (measure now sent h).1 { pending_payload = none } =
        ap (λ o. (pong_for now p o h).1) w.0
        ∙ ap (λ (r : Option f.F × Heartbeat f P). r.1)
            (if_true (fits h.pending_payload p) _ _ (ap (λ o. fits o p) w.1.0 ∙ answer)) in
      subst IsAnswered (sym got) (refl, (ap (signal true) w.1.1.0, w.1.1.1))
  answered (application now none) sent h w answer = elim (true≢false (sym answer)) [ ]
  answered (application now (some false)) sent h w answer = elim (true≢false (sym answer)) [ ]
  answered (application now (some true)) sent h w answer =
      subst IsAnswered (sym (ap (λ o. matched now o h) w.0))
        (refl, (ap (signal true) w.1.1.0, w.1.1.1))

  ignored :
      (a : Arrival f.F P) (sent : f.F) (h : Heartbeat f P)
      → IsWaiting sent h
      → is_answer h.payload a ≡ false
      → arrive a h ≡ h
  unfolding arrive on_pong pong_for on_application_message
  ignored (pong now p) sent h w other =
      ap (λ o. (pong_for now p o h).1) w.0
      ∙ ap (λ (r : Option f.F × Heartbeat f P). r.1)
          (if_false (fits h.pending_payload p) _ _ (ap (λ o. fits o p) w.1.0 ∙ other))
  ignored (application now none) sent h w other = refl
  ignored (application now (some false)) sent h w other = refl
  ignored (application now (some true)) sent h w other = elim (true≢false other) [ ]

  -- The event and the flag at the end of a wait.
  abbrev Ends : Bool → Heartbeat f P → Type 0
  Ends is_set h = (h.pong_event ≡ some is_set) × (h.running ≡ true)

  awaited :
      (arrived : List (Arrival f.F P)) (sent : f.F) (h : Heartbeat f P)
      → IsWaiting sent h
      → Ends (answers h.payload arrived) (arrivals arrived h)
  unfolding arrivals
  awaited [] sent h w = w.1.1
  awaited (a ∷ arrived) sent h w = elim (Bool-cases (is_answer h.payload a)) [
    | inl answer ↦
        let done : IsAnswered (arrive a h) = answered a sent h w answer in
        rw answer (subst (Ends true) (sym (late arrived (arrive a h) done.0)) done.1)
    | inr other ↦ rw other (
        subst (λ u. Ends (answers h.payload arrived) (arrivals arrived u))
          (sym (ignored a sent h w other)) (awaited arrived sent h w))
  ]

  -- A cycle of a running heartbeat that has sent its ping, and which nobody stops or resets during the
  -- wait, times out exactly where no answer arrives: no pong frame with the payload of the ping and no
  -- message that is a pong to the matcher. Other pongs, messages and repeated answers make no
  -- difference.
  pub cycle_times_out :
      (now : f.F) (arrived : List (Arrival f.F P)) (h : Heartbeat f P) (is_set : Bool)
      → h.running ≡ true
      → h.pong_event ≡ some is_set
      → let r = ping now (ok tt) h in
        (r.0 ≡ waits_for_pong)
        × (finish (arrivals arrived r.1)
            ≡ (if answers h.payload arrived then waits_interval else times_out))
  unfolding ping finish
  cycle_times_out now arrived h is_set running event =
      let h1 : Heartbeat f P = record h {
        pong_event = signal false h.pong_event;
        pending_payload = some h.payload;
        last_ping_time = some now;
      } in
      let sent : ping now (ok tt) h ≡ (waits_for_pong, h1) = if_true h.running _ _ running in
      let (event', running') =
        awaited arrived now h1 (refl, (refl, (ap (signal false) event, running))) in
      subst
        (λ (r : Next × Heartbeat f P).
          (r.0 ≡ waits_for_pong)
          × (finish (arrivals arrived r.1)
              ≡ (if answers h.payload arrived then waits_interval else times_out)))
        (sym sent) (refl, rw (event', running') refl)
