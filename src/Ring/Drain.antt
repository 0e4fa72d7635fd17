-- ===== src/Ring/Drain.antt =====
-- `drain` and `drain_with_sequences`: what their loops give and leave.
use jetsocket.Prelude.{
  ℕ, zero, suc, ◌≤◌, ◌<◌, ◌≡◌, refl, sym, ap, ◌∙◌, inl, inr, Option, none, some, List, [], ◌∷◌,
  ◌++◌, append-nil, append_assoc, length, somes, get_or, arith, Bool-cases, ==_iff, ◌==◌,
}
use jetsocket.Ring.Defs.{
  RingBuffer, Entry, append_some, pop, advance, drain_loop, drain, sequences_loop,
  drain_with_sequences,
}
use jetsocket.Ring.Queue
use jetsocket.Ring.Queue.{Queue, first_item, rest_of, items}
use jetsocket.Ring.Represents.{Represents, Represents-len, advance-Represents}
use jetsocket.Ring.Refine.{Agrees, head?, head_slot, nothing_left, emptied, len-pop, pop_refines}

module _ {ℓ} {A : Type ℓ} where
  append_some-somes :
      (xs : List A) (o : Option A) (ys : List (Option A))
      → append_some xs o ++ somes ys ≡ xs ++ somes (o ∷ ys)
  append_some-somes xs none ys = refl
  append_some-somes xs (some x) ys = append_assoc xs (x ∷ []) (somes ys)

  append_some-head? :
      (xs es : List A) → 0 < length es → append_some xs (head? es) ++ rest_of es ≡ xs ++ es
  append_some-head? xs [] h = elim h [ ]
  append_some-head? xs (e ∷ es) h = append_assoc xs (e ∷ []) es

module _ {ℓ} {T S : Type ℓ} where
  items_cons :
      (es : List (Entry T S)) → 0 < length es → (first_item es ∷ items (rest_of es)) ≡ items es
  items_cons [] h = elim h [ ]
  items_cons ((item, sequence_id) ∷ es) h = refl

  drained :
      {A : Type ℓ} {r : RingBuffer T S} {q : Queue T S} (acc : List A)
      (f : List (Entry T S) → List A)
      → f [] ≡ []
      → Represents r q
      → r.len ≡ 0
      → Agrees (acc, r) (acc ++ f q.entries, record q { entries = [] })
  drained acc f e h empty =
      (rw (nothing_left h empty, e) (sym (append-nil acc)), emptied (nothing_left h empty) h)

  drained_one :
      (acc : List T) (o : Option T) (es : List (Entry T S))
      → o ≡ first_item es
      → 0 < length es
      → append_some acc o ++ somes (items (rest_of es)) ≡ acc ++ somes (items es)
  drained_one acc o es e more =
      append_some-somes acc o (items (rest_of es))
      ∙ ap (λ xs. acc ++ somes xs) (ap (λ x. x ∷ items (rest_of es)) e ∙ items_cons es more)

  drain_loop_lem :
      (fuel : ℕ) {r : RingBuffer T S} {q : Queue T S} (acc : List T)
      → Represents r q
      → r.len ≤ fuel
      → Agrees (drain_loop fuel acc r) (acc ++ somes (items q.entries), record q { entries = [] })
  unfolding drain_loop Queue.pop
  drain_loop_lem zero acc h le = drained acc (λ es. somes (items es)) refl h (omega arith)
  drain_loop_lem (suc fuel) {r} {q} acc h le = elim (Bool-cases (r.len == 0)) [
    | inl empty ↦ rw empty (drained acc (λ es. somes (items es)) refl h ((==_iff r.len 0).0 empty))
    | inr more ↦
        let p = pop_refines h in
        let rest =
          drain_loop_lem fuel (append_some acc (pop r).0) p.1 (ground (arith, len-pop r)) in
        rw more (
          rest.0 ∙ drained_one acc (pop r).0 q.entries p.0 (ground (arith, Represents-len h)),
          rest.1,
        )
  ]

  -- `drain` gives the items of the queue, oldest first, without those that are None, and leaves
  -- the buffer empty.
  pub drain_lem :
      {r : RingBuffer T S} {q : Queue T S}
      → Represents r q
      → Agrees (drain r) (somes (items q.entries), record q { entries = [] })
  unfolding drain
  drain_lem {r} h = drain_loop_lem r.len [] h (omega arith)

  sequences_loop_lem :
      (fuel : ℕ) {r : RingBuffer T S} {q : Queue T S} (acc : List (Entry T S))
      → Represents r q
      → r.len ≤ fuel
      → Agrees (sequences_loop fuel acc r) (acc ++ q.entries, record q { entries = [] })
  unfolding sequences_loop advance
  sequences_loop_lem zero acc h le = drained acc (λ es. es) refl h (omega arith)
  sequences_loop_lem (suc fuel) {r} {q} acc h le = elim (Bool-cases (r.len == 0)) [
    | inl empty ↦ rw empty (drained acc (λ es. es) refl h ((==_iff r.len 0).0 empty))
    | inr more ↦
        let rest =
          sequences_loop_lem fuel (append_some acc (get_or r.buffer r.head none))
            (advance-Represents h (ground arith)) (ground arith) in
        rw more (
          rest.0
              ∙ ap (λ o. append_some acc o ++ rest_of q.entries)
                  (head_slot r.buffer r.capacity r.head r.len q.entries h.head_in (ground arith)
                    h.cells)
              ∙ append_some-head? acc q.entries (ground (arith, Represents-len h)),
          rest.1,
        )
  ]

  -- `drain_with_sequences` gives every entry of the queue, those whose item is None too.
  pub drain_with_sequences_lem :
      {r : RingBuffer T S} {q : Queue T S}
      → Represents r q
      → Agrees (drain_with_sequences r) (q.entries, record q { entries = [] })
  unfolding drain_with_sequences
  drain_with_sequences_lem {r} h = sequences_loop_lem r.len [] h (omega arith)
