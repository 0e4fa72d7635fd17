-- ===== src/Heartbeat/Samples.antt =====
-- The latencies of jetsocket/heartbeat.py after any calls.
use jetsocket.Prelude.{
  ℕ, ◌+◌, ◌-◌, ◌≤◌, ◌≡◌, refl, ◌∙◌, Bool, Option, none, some, List, [], ◌∷◌, ◌++◌, length,
  length-append, drop, drop-length, Eq, if_either, arith, zero, suc,
}
use jetsocket.Exceptions.{Result, ok, err}
use jetsocket.Float.{Float}
use jetsocket.Heartbeat.Defs.{
  Heartbeat, Next, append_sample, init, start, stop, reset, measure, matched,
  on_application_message, ping, fits, pong_for, on_pong,
}

module _ {A : Type 0} where
  abbrev pub last_of : List A → Option A
  last_of [] = none
  last_of (a ∷ []) = some a
  last_of (a ∷ b ∷ samples) = last_of (b ∷ samples)

  last_of-append : (samples : List A) (a : A) → last_of (samples ++ (a ∷ [])) ≡ some a
  last_of-append [] a = refl
  last_of-append (x ∷ []) a = refl
  last_of-append (x ∷ y ∷ samples) a = last_of-append (y ∷ samples) a

  last_of-drop : (n : ℕ) (xs : List A) → n + 1 ≤ length xs → last_of (drop n xs) ≡ last_of xs
  last_of-drop zero xs le = refl
  last_of-drop (suc n) [] le = absurd (omega (arith, le))
  last_of-drop (suc n) (x ∷ []) le = absurd (omega (arith, le))
  last_of-drop (suc n) (x ∷ y ∷ xs) le = last_of-drop n (y ∷ xs) (omega (arith, le))

  length-append_sample : (samples : List A) (a : A) → length (append_sample samples a) ≤ 10
  length-append_sample samples a =
      let all = samples ++ (a ∷ []) in omega (arith, drop-length (length all - 10) all)

  last_of-append_sample : (samples : List A) (a : A) → last_of (append_sample samples a) ≡ some a
  last_of-append_sample samples a =
      let all = samples ++ (a ∷ []) in
      last_of-drop (length all - 10) all (omega (arith, length-append samples (a ∷ [])))
      ∙ last_of-append samples a

pub data Call (f : Float) (P : Type 0) : Type 0 where
  starts stops resets : Call f P
  pings : f.F → Result (Unit {0}) → Call f P
  pong : f.F → P → Call f P
  message : f.F → Option Bool → Call f P

module _ {f : Float} {P : Type 0} ⦃e : Eq P⦄ where
  unfoldable pub perform : Call f P → Heartbeat f P → Heartbeat f P
  perform starts h = start h
  perform stops h = stop h
  perform resets h = reset h
  perform (pings now sent) h = (ping now sent h).1
  perform (pong now payload) h = (on_pong now payload h).1
  perform (message now is_pong) h = (on_application_message now is_pong h).1

  -- The heartbeat after calls, the last one first.
  unfoldable pub after : P → List (Call f P) → Heartbeat f P
  after payload [] = init payload
  after payload (c ∷ cs) = perform c (after payload cs)

  -- At most ten samples, of which the last one is the last latency.
  abbrev pub Sampled : Heartbeat f P → Type 0
  Sampled h = (length h.latency_samples ≤ 10) × (last_of h.latency_samples ≡ h.last_latency)

  measure-Sampled : (now sent : f.F) (h : Heartbeat f P) → Sampled (measure now sent h).1
  unfolding measure
  measure-Sampled now sent h =
      (length-append_sample h.latency_samples _, last_of-append_sample h.latency_samples _)

  matched-Sampled :
      (now : f.F) (o : Option f.F) (h : Heartbeat f P) → Sampled h → Sampled (matched now o h)
  unfolding matched
  matched-Sampled now none h s = s
  matched-Sampled now (some sent) h s = measure-Sampled now sent h

  pong_for-Sampled :
      (now : f.F) (payload : P) (o : Option f.F) (h : Heartbeat f P)
      → Sampled h
      → Sampled (pong_for now payload o h).1
  unfolding pong_for
  pong_for-Sampled now payload none h s = s
  pong_for-Sampled now payload (some sent) h s =
      if_either (λ (r : Option f.F × Heartbeat f P). Sampled r.1) (fits h.pending_payload payload)
        (λ _. measure-Sampled now sent h) (λ _. s)

  message-Sampled :
      (now : f.F) (is_pong : Option Bool) (h : Heartbeat f P)
      → Sampled h
      → Sampled (on_application_message now is_pong h).1
  unfolding on_application_message
  message-Sampled now none h s = s
  message-Sampled now (some is_pong) h s =
      if_either (λ (r : Bool × Heartbeat f P). Sampled r.1) is_pong
        (λ _. matched-Sampled now h.last_ping_time h s) (λ _. s)

  ping-Sampled :
      (now : f.F) (sent : Result (Unit {0})) (h : Heartbeat f P)
      → Sampled h
      → Sampled (ping now sent h).1
  unfolding ping
  ping-Sampled now (ok _) h s =
      if_either (λ (r : Next × Heartbeat f P). Sampled r.1) h.running (λ _. s) (λ _. s)
  ping-Sampled now (err x) h s =
      if_either (λ (r : Next × Heartbeat f P). Sampled r.1) h.running (λ _. s) (λ _. s)

  -- After any calls a heartbeat holds at most ten latencies, the newest of which is the last
  -- latency that it shows; and it shows none where it holds none.
  pub samples_bounded : (payload : P) (cs : List (Call f P)) → Sampled (after payload cs)
  unfolding after perform init start stop reset on_pong
  samples_bounded payload [] = (omega arith, refl)
  samples_bounded payload (starts ∷ cs) =
      let h = after payload cs in
      if_either Sampled h.running (λ _. samples_bounded payload cs)
        (λ _. samples_bounded payload cs)
  samples_bounded payload (stops ∷ cs) = samples_bounded payload cs
  samples_bounded payload (resets ∷ cs) = (omega arith, refl)
  samples_bounded payload (pings now sent ∷ cs) =
      ping-Sampled now sent (after payload cs) (samples_bounded payload cs)
  samples_bounded payload (pong now p ∷ cs) =
      pong_for-Sampled now p (after payload cs).last_ping_time (after payload cs)
        (samples_bounded payload cs)
  samples_bounded payload (message now is_pong ∷ cs) =
      message-Sampled now is_pong (after payload cs) (samples_bounded payload cs)
