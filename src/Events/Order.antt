-- ===== src/Events/Order.antt =====
-- Which handlers an event of jetsocket/events.py calls, and in which order.
use jetsocket.Prelude.{
  ◌≡◌, refl, sym, ap, subst, ◌∙◌, Bool, false, ◌&&◌, Option, none, some, List, [], ◌∷◌, ◌++◌,
  append-nil, append_assoc, Eq, if◌then◌else◌, if_either, if_true, if_false, Bool-cases, inl, inr,
  arith,
}
use jetsocket.Exceptions.{Result}
use jetsocket.Dict.{get, put, get-put_self, get-put_other}
use jetsocket.Events.Emitter.{
  Emitter, or_empty, is_there, has_handler, remove, append_new, handlers_of, clear_handlers,
  add_handler, remove_handler, call_all, emit_async,
}

pub data Call (K H : Type 0) : Type 0 where
  adds removes : K → H → Call K H
  clears : Option K → Call K H

module _ {H : Type 0} where
  absent : (o : Option (List H)) → is_there o ≡ false → or_empty o ≡ []
  absent none e = refl
  absent (some hs) e = absurd (ground arith)

module _ {H : Type 0} ⦃h : Eq H⦄ where
  remove-absent : (hs : List H) (a : H) → has_handler hs a ≡ false → remove hs a ≡ hs
  remove-absent [] a e = refl
  remove-absent (x ∷ hs) a e = elim (Bool-cases (h.beq x a)) [
    | inl here ↦ absurd (ground arith)
    | inr past ↦ rw past (ap (λ xs. x ∷ xs) (remove-absent hs a (ground arith)))
  ]

module _ {K H : Type 0} ⦃k : Eq K⦄ ⦃h : Eq H⦄ where
  unfoldable pub apply : Call K H → Emitter K H → Emitter K H
  apply (adds event handler) d = add_handler event handler d
  apply (removes event handler) d = (remove_handler event handler d).1
  apply (clears event) d = clear_handlers event d

  -- The emitter after calls, the last one first.
  unfoldable pub after : List (Call K H) → Emitter K H
  after [] = []
  after (c ∷ cs) = apply c (after cs)

  -- What one event's handlers are, by the calls for that event alone.
  abbrev pub step : K → Call K H → List H → List H
  step event (adds other handler) hs = if k.beq other event then append_new hs handler else hs
  step event (removes other handler) hs = if k.beq other event then remove hs handler else hs
  step event (clears none) hs = []
  step event (clears (some other)) hs = if k.beq other event then [] else hs

  abbrev pub registered : K → List (Call K H) → List H
  registered event [] = []
  registered event (c ∷ cs) = step event c (registered event cs)

  handlers_of-put :
      (d : Emitter K H) (other event : K) (hs : List H)
      → handlers_of (put d other hs) event ≡ (if k.beq other event then hs else handlers_of d event)
  handlers_of-put d other event hs = elim (Bool-cases (k.beq other event)) [
    | inl same ↦
        subst (λ x. handlers_of (put d other hs) x ≡ hs) ((k.beq_iff other event).0 same)
          (ap or_empty (get-put_self d other hs))
        ∙ sym (if_true (k.beq other event) _ _ same)
    | inr differ ↦
        ap or_empty (get-put_other d other hs event differ)
        ∙ sym (if_false (k.beq other event) _ _ differ)
  ]

  -- A write that leaves the other events' handlers, and its own where the handlers are the same.
  written :
      (d : Emitter K H) (other event : K) (hs : List H)
      → hs ≡ handlers_of d other
      → handlers_of d event ≡ (if k.beq other event then hs else handlers_of d event)
  written d other event hs e = elim (Bool-cases (k.beq other event)) [
    | inl same ↦
        sym (ap (handlers_of d) ((k.beq_iff other event).0 same))
        ∙ sym e
        ∙ sym (if_true (k.beq other event) _ _ same)
    | inr differ ↦ sym (if_false (k.beq other event) _ _ differ)
  ]

  at_same :
      (f : List H → List H) (d : Emitter K H) (other event : K)
      → (if k.beq other event then f (handlers_of d other) else handlers_of d event)
        ≡ (if k.beq other event then f (handlers_of d event) else handlers_of d event)
  at_same f d other event = elim (Bool-cases (k.beq other event)) [
    | inl same ↦ rw same (ap (λ x. f (handlers_of d x)) ((k.beq_iff other event).0 same))
    | inr differ ↦ rw differ refl
  ]

  -- `if event not in self._handlers: self._handlers[event] = []`
  opened :
      (d : Emitter K H) (other event : K)
      → handlers_of (if is_there (get d other) then d else put d other []) event
        ≡ handlers_of d event
  opened d other event =
      if_either (λ (d1 : Emitter K H). handlers_of d1 event ≡ handlers_of d event)
        (is_there (get d other)) (λ _. refl)
        (λ e.
          handlers_of-put d other event []
          ∙ sym (written d other event [] (sym (absent (get d other) e))))

  added :
      (d : Emitter K H) (other : K) (a : H) (event : K)
      → handlers_of
          (if has_handler (handlers_of d other) a
            then d
            else put d other (handlers_of d other ++ (a ∷ [])))
          event
        ≡ (if k.beq other event then append_new (handlers_of d other) a else handlers_of d event)
  added d other a event = elim (Bool-cases (has_handler (handlers_of d other) a)) [
    | inl there ↦ rw there (written d other event (handlers_of d other) refl)
    | inr new ↦ rw new (handlers_of-put d other event (handlers_of d other ++ (a ∷ [])))
  ]

  add_handler_lem :
      (d : Emitter K H) (other : K) (a : H) (event : K)
      → handlers_of (add_handler other a d) event ≡ step event (adds other a) (handlers_of d event)
  unfolding add_handler
  add_handler_lem d other a event =
      let d1 = if is_there (get d other) then d else put d other [] in
      added d1 other a event
      ∙ at_same (λ hs. append_new hs a) d1 other event
      ∙ ap (λ hs. if k.beq other event then append_new hs a else hs) (opened d other event)

  unremoved :
      (d : Emitter K H) (other : K) (a : H)
      → is_there (get d other) && has_handler (handlers_of d other) a ≡ false
      → remove (handlers_of d other) a ≡ handlers_of d other
  unremoved d other a e = elim (Bool-cases (is_there (get d other))) [
    | inl there ↦ remove-absent (handlers_of d other) a (ground (arith, e, there))
    | inr none_there ↦ rw (absent (get d other) none_there) refl
  ]

  remove_handler_lem :
      (d : Emitter K H) (other : K) (a : H) (event : K)
      → handlers_of (remove_handler other a d).1 event
        ≡ step event (removes other a) (handlers_of d event)
  unfolding remove_handler
  remove_handler_lem d other a event =
      if_either
        (λ (p : Bool × Emitter K H).
          handlers_of p.1 event
          ≡ (if k.beq other event then remove (handlers_of d other) a else handlers_of d event))
        (is_there (get d other) && has_handler (handlers_of d other) a)
        (λ _. handlers_of-put d other event (remove (handlers_of d other) a))
        (λ e. written d other event (remove (handlers_of d other) a) (unremoved d other a e))
      ∙ at_same (λ hs. remove hs a) d other event

  clear_handlers_lem :
      (d : Emitter K H) (o : Option K) (event : K)
      → handlers_of (clear_handlers o d) event ≡ step event (clears o) (handlers_of d event)
  unfolding clear_handlers get
  clear_handlers_lem d none event = refl
  clear_handlers_lem d (some other) event =
      if_either
        (λ (d1 : Emitter K H).
          handlers_of d1 event ≡ (if k.beq other event then [] else handlers_of d event))
        (is_there (get d other)) (λ _. handlers_of-put d other event [])
        (λ e. written d other event [] (sym (absent (get d other) e)))

  handlers_registered :
      (cs : List (Call K H)) (event : K) → handlers_of (after cs) event ≡ registered event cs
  unfolding after apply get
  handlers_registered [] event = refl
  handlers_registered (adds other a ∷ cs) event =
      add_handler_lem (after cs) other a event
      ∙ ap (step event (adds other a)) (handlers_registered cs event)
  handlers_registered (removes other a ∷ cs) event =
      remove_handler_lem (after cs) other a event
      ∙ ap (step event (removes other a)) (handlers_registered cs event)
  handlers_registered (clears o ∷ cs) event =
      clear_handlers_lem (after cs) o event
      ∙ ap (step event (clears o)) (handlers_registered cs event)

-- A call that is noted in a list, the last one at the end.
abbrev pub noting :
    {H W : Type 0}
    → (H → W → Result (Unit {0}) × W)
    → H
    → W × List H
    → Result (Unit {0}) × (W × List H)
noting call handler (w, called) =
    let (r, w') = call handler w in (r, (w', called ++ (handler ∷ [])))

module _ {H W : Type 0} where
  calls_in_order :
      (call : H → W → Result (Unit {0}) × W) (hs : List H) (w : W) (called : List H)
      → (call_all (noting call) hs (w, called)).1 ≡ called ++ hs
  calls_in_order call [] w called = sym (append-nil called)
  calls_in_order call (h ∷ hs) w called =
      calls_in_order call hs (call h w).1 (called ++ (h ∷ [])) ∙ append_assoc called (h ∷ []) hs

module _ {K H W : Type 0} ⦃k : Eq K⦄ ⦃h : Eq H⦄ where
  -- After any calls that add, remove and clear handlers, an event calls the handlers that the calls
  -- for that event alone leave, each one once and in the order of registration, whatever they raise
  -- and whatever they do to the emitter meanwhile.
  pub emit_in_order :
      (call : H → W → Result (Unit {0}) × W) (emitter : W → Emitter K H) (cs : List (Call K H))
      (event : K) (w : W)
      → emitter w ≡ after cs
      → (emit_async (noting call) (λ p. emitter p.0) event (w, [])).1 ≡ registered event cs
  unfolding emit_async
  emit_in_order call emitter cs event w e =
      calls_in_order call (handlers_of (emitter w) event) w []
      ∙ ap (λ d. handlers_of d event) e
      ∙ handlers_registered cs event
