-- ===== src/Events/Tests.antt =====
-- The theorem about the emitter at a concrete input: events by name, handlers by number.
use jetsocket.Prelude.{
  ℕ, ◌≡◌, refl, none, some, List, [], ◌∷◌, String, string_eq, nat_eq, ◌==◌, if◌then◌else◌,
}
use jetsocket.Exceptions.{Result, ok, err, value_error}
use jetsocket.Events.Emitter.{Emitter, add_handler, clear_handlers, emit_async}
use jetsocket.Events.Order.{Call, after, noting, emit_in_order}

-- The last call first: 7 is registered twice and counts once, and 9 is removed.
abbrev calls : List (Call String ℕ)
calls =
    Call.removes "message" 9
    ∷ Call.adds "closed" 4
    ∷ Call.adds "message" 7
    ∷ Call.adds "message" 8
    ∷ Call.adds "message" 9
    ∷ Call.adds "message" 7
    ∷ Call.clears none
    ∷ Call.adds "message" 5
    ∷ []

-- Handler 7 clears the handlers and raises.
abbrev handle : ℕ → Emitter String ℕ → Result (Unit {0}) × Emitter String ℕ
handle n d =
    if n == 7
    then (err value_error, clear_handlers (some "message") d)
    else (ok tt, add_handler "message" 6 d)

emit_in_order_example :
    (emit_async (noting handle) (λ p. p.0) "message" (after calls, [])).1 ≡ 7 ∷ 8 ∷ []
emit_in_order_example = emit_in_order handle (λ d. d) calls "message" (after calls) refl
