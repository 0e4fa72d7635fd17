-- ===== src/Multiplex/Keeps.antt =====
-- What a bounded queue of jetsocket/multiplex.py keeps of all that is put into it.
use jetsocket.Prelude.{
  ℕ, ◌≤◌, ◌<◌, ◌≡◌, refl, sym, ap, subst, ◌∙◌, true, false, Option, List, [], ◌∷◌, ◌++◌,
  append_assoc, length, length-append, if_true, if_false, Bool-cases, inl, inr, dec_lt, arith,
}
use jetsocket.Multiplex.Defs.{is_full, drop_first, enqueue}
use jetsocket.Multiplex.Counts.{Fits, enqueue-Fits}

module _ {T : Type 0} where
  -- A bounded queue that has seen all of a list: what it has dropped stood at the front, and it is
  -- full where it has dropped something.
  pub record Keeps (size : ℕ) (all queue : List (Option T)) : Type 0 where
    pub dropped : List (Option T)
    pub joined : dropped ++ queue ≡ all
    pub full : 0 < length dropped → length queue ≡ size
    pub bounded : 0 < length dropped → 0 < size
    pub fits : Fits size queue

  pub kept_all : (size : ℕ) (queue : List (Option T)) → Fits size queue → Keeps size queue queue
  kept_all size queue h = record {
    dropped = [];
    joined = refl;
    full = λ pos. omega (arith, pos);
    bounded = λ pos. omega (arith, pos);
    fits = h;
  }

  evicted :
      (size : ℕ) (message : Option T) (queue : List (Option T))
      → Fits size queue
      → is_full size queue ≡ true
      → Keeps size (queue ++ (message ∷ [])) (drop_first queue ++ (message ∷ []))
  evicted size message [] h e = absurd (ground arith)
  evicted size message (x ∷ queue) h e =
      let pos : 0 < size = ground (arith, e) in
      let large : size ≤ length (x ∷ queue) = ground (arith, e) in
      record {
        dropped = x ∷ [];
        joined = refl;
        full = λ _. omega (arith, h pos, large, length-append queue (message ∷ []));
        bounded = λ _. pos;
        fits = λ _. omega (arith, h pos, length-append queue (message ∷ []));
      }

  enqueue_full :
      (size : ℕ) (message : Option T) (queue : List (Option T))
      → is_full size queue ≡ true
      → enqueue size message queue ≡ drop_first queue ++ (message ∷ [])
  unfolding enqueue
  enqueue_full size message queue e = if_true (is_full size queue) _ _ e

  enqueue_room :
      (size : ℕ) (message : Option T) (queue : List (Option T))
      → is_full size queue ≡ false
      → enqueue size message queue ≡ queue ++ (message ∷ [])
  unfolding enqueue
  enqueue_room size message queue e = if_false (is_full size queue) _ _ e

  pub enqueue-Keeps :
      (size : ℕ) (message : Option T) (queue : List (Option T))
      → Fits size queue
      → Keeps size (queue ++ (message ∷ [])) (enqueue size message queue)
  enqueue-Keeps size message queue h = elim (Bool-cases (is_full size queue)) [
    | inl full ↦
        subst (Keeps size (queue ++ (message ∷ []))) (sym (enqueue_full size message queue full))
          (evicted size message queue h full)
    | inr room ↦
        subst (Keeps size (queue ++ (message ∷ []))) (sym (enqueue_room size message queue room)) (
          kept_all size (queue ++ (message ∷ [])) (
            subst (Fits size) (enqueue_room size message queue room)
              (enqueue-Fits size message queue h)))
  ]

  still_full :
      {size : ℕ} {all queue : List (Option T)} (more : List (Option T)) {last : List (Option T)}
      (h : Keeps size all queue) (k : Keeps size (queue ++ more) last)
      → 0 < length (h.dropped ++ k.dropped)
      → length last ≡ size
  still_full {size} {all} {queue} more {last} h k pos = elim (dec_lt 0 (length k.dropped)) [
    | yes dropping ↦ k.full dropping
    | no none_dropped ↦
        let first : 0 < length h.dropped =
          omega (arith, pos, none_dropped, length-append h.dropped k.dropped) in
        omega (
          arith,
          none_dropped,
          h.full first,
          k.fits (h.bounded first),
          ap length k.joined,
          length-append k.dropped last,
          length-append queue more,
        )
  ]

  pub then_more :
      {size : ℕ} {all queue : List (Option T)} (more : List (Option T)) {last : List (Option T)}
      → Keeps size all queue
      → Keeps size (queue ++ more) last
      → Keeps size (all ++ more) last
  then_more {size} {all} {queue} more {last} h k = record {
    dropped = h.dropped ++ k.dropped;
    joined =
        append_assoc h.dropped k.dropped last
        ∙ ap (λ q. h.dropped ++ q) k.joined
        ∙ sym (append_assoc h.dropped queue more)
        ∙ ap (λ q. q ++ more) h.joined;
    full = still_full more h k;
    bounded = λ pos. elim (dec_lt 0 (length k.dropped)) [
      | yes dropping ↦ k.bounded dropping
      | no none_dropped ↦
          h.bounded (omega (arith, pos, none_dropped, length-append h.dropped k.dropped))
    ];
    fits = k.fits;
  }
