-- ===== src/Events/Emitter.antt =====
-- `EventEmitter` of jetsocket/events.py, over any type of event names and of handlers. The lock,
-- which makes each method one step, is left out.
use jetsocket.Prelude.{
  ℕ, ◌+◌, Bool, true, false, ◌||◌, ◌&&◌, Option, none, some, List, [], ◌∷◌, ◌++◌, length, Eq,
  if◌then◌else◌,
}
use jetsocket.Exceptions.{Result}
use jetsocket.Dict.{Dict, get, put}

-- `_handlers`
abbrev pub Emitter : Type 0 → Type 0 → Type 0
Emitter K H = Dict K (List H)

abbrev pub or_empty : {H : Type 0} → Option (List H) → List H
or_empty none = []
or_empty (some hs) = hs

abbrev pub is_there : {A : Type 0} → Option A → Bool
is_there none = false
is_there (some a) = true

module _ {H : Type 0} ⦃e : Eq H⦄ where
  -- `handler in handlers`
  abbrev pub has_handler : List H → H → Bool
  has_handler [] h = false
  has_handler (a ∷ hs) h = e.beq a h || has_handler hs h

  -- `handlers.remove(handler)`, of a handler that is there
  abbrev pub remove : List H → H → List H
  remove [] h = []
  remove (a ∷ hs) h = if e.beq a h then hs else a ∷ remove hs h

  -- `if handler not in handlers: handlers.append(handler)`
  abbrev pub append_new : List H → H → List H
  append_new hs h = if has_handler hs h then hs else hs ++ (h ∷ [])

module _ {K H : Type 0} ⦃k : Eq K⦄ where
  -- `self._handlers.get(event, [])`
  abbrev pub handlers_of : Emitter K H → K → List H
  handlers_of d event = or_empty (get d event)

  unfoldable pub clear_handlers : Option K → Emitter K H → Emitter K H
  clear_handlers none d = []
  clear_handlers (some event) d = if is_there (get d event) then put d event [] else d

  abbrev pub sum_lengths : Emitter K H → ℕ
  sum_lengths [] = 0
  sum_lengths ((event, hs) ∷ d) = length hs + sum_lengths d

  unfoldable pub handler_count : Option K → Emitter K H → ℕ
  handler_count none d = sum_lengths d
  handler_count (some event) d = length (handlers_of d event)

module _ {K H : Type 0} ⦃k : Eq K⦄ ⦃h : Eq H⦄ where
  unfoldable pub add_handler : K → H → Emitter K H → Emitter K H
  add_handler event handler d =
      let d1 = if is_there (get d event) then d else put d event [] in
      if has_handler (handlers_of d1 event) handler
      then d1
      else put d1 event (handlers_of d1 event ++ (handler ∷ []))

  unfoldable pub remove_handler : K → H → Emitter K H → Bool × Emitter K H
  remove_handler event handler d =
      if is_there (get d event) && has_handler (handlers_of d event) handler
      then (true, put d event (remove (handlers_of d event) handler))
      else (false, d)

module _ {H W : Type 0} where
  -- A handler may do anything to the world, which holds the emitter, and may raise: what it raises
  -- is suppressed.
  abbrev pub call_all : (H → W → Result (Unit {0}) × W) → List H → W → W
  call_all call [] w = w
  call_all call (handler ∷ hs) w = call_all call hs (call handler w).1

module _ {K H W : Type 0} ⦃k : Eq K⦄ where
  -- `emit_async`
  unfoldable pub emit_async : (H → W → Result (Unit {0}) × W) → (W → Emitter K H) → K → W → W
  emit_async call emitter event w = call_all call (handlers_of (emitter w) event) w
