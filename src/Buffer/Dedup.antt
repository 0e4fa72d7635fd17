-- ===== src/Buffer/Dedup.antt =====
-- Which pushes of jetsocket/buffer.py are refused as duplicates.
use jetsocket.Prelude.{
  ◌≤◌, ◌≡◌, refl, sym, ap, ap₂, subst, ◌∙◌, Bool, true, false, ◌&&◌, Option, none, some, List, [],
  ◌∷◌, ◌++◌, length, Eq, Bool-cases, inl, inr, if◌then◌else◌, if_true, if_false,
}
use jetsocket.Exceptions.{Result, ok}
use jetsocket.Buffer.Defs.{
  BufferConfig, MessageBuffer, contains, init, pop, drain, drain_with_sequences, clear, clear_dedup,
  reset, push_through, is_duplicate, track_sequence, note_sequence, push,
}
use jetsocket.Buffer.Calls.{
  Call, pushes, pops, drains, drains_with_sequences, clears, clears_dedup, resets, after, run,
  fresh, history,
}
use jetsocket.Buffer.Window.{
  last_n, length-last_n, evict_over-eq-last_n, last_n-append, last_n-nil, IsDistinct,
  IsDistinct-append, IsDistinct-drop,
}

and_true : (x y : Bool) → x ≡ true → (x && y) ≡ y
and_true true y h = refl
and_true false y h = cc

module _ {ℓ} {T S : Type ℓ} ⦃e : Eq S⦄ where
  -- The buffer's window is the end of a history, with no ID in it twice.
  record Remembers (config : BufferConfig) (b : MessageBuffer T S) (h : List S) : Type ℓ where
    same_config : b.config ≡ config
    seen : b.seen_sequences ≡ last_n config.dedup_window h
    distinct : IsDistinct (last_n config.dedup_window h)

  -- A push of an ID that is not in the window.
  track_sequence-eq :
      (s : S) (b : MessageBuffer T S)
      → contains b.seen_sequences s ≡ false
      → track_sequence s b
        ≡ record b { seen_sequences = last_n b.config.dedup_window (b.seen_sequences ++ (s ∷ [])) }
  unfolding track_sequence
  track_sequence-eq s b h = rw h (
      ap (λ seen. record b { seen_sequences = seen })
        (evict_over-eq-last_n b.config.dedup_window (b.seen_sequences ++ (s ∷ []))))

  -- The buffer that a push of a new ID hands to the ring buffer.
  abbrev pub noted : BufferConfig → List S → S → MessageBuffer T S → MessageBuffer T S
  noted config h s b = record b {
    last_sequence_id = some s;
    seen_sequences = last_n config.dedup_window (h ++ (s ∷ []));
  }

  note_sequence-eq :
      (config : BufferConfig) (h : List S) (s : S) {b : MessageBuffer T S}
      → config.enable_dedup ≡ true
      → Remembers config b h
      → contains b.seen_sequences s ≡ false
      → note_sequence s b ≡ noted config h s b
  unfolding note_sequence
  note_sequence-eq config h s {b} on m new =
      if_true b.config.enable_dedup _ _
        (ap (λ (c : BufferConfig). c.enable_dedup) m.same_config ∙ on)
      ∙ track_sequence-eq s (record b { last_sequence_id = some s }) new
      ∙ ap (λ seen. record b { last_sequence_id = some s; seen_sequences = seen })
          (ap₂ (λ w xs. last_n w (xs ++ (s ∷ [])))
              (ap (λ (c : BufferConfig). c.dedup_window) m.same_config) m.seen
            ∙ last_n-append config.dedup_window h s)

  push_lem :
      (config : BufferConfig) (h : List S) (message : Option T) (s : S) {b : MessageBuffer T S}
      → config.enable_dedup ≡ true
      → Remembers config b h
      → push message (some s) b ≡ (
          if contains (last_n config.dedup_window h) s
          then (ok false, b)
          else push_through message (some s) (noted config h s b))
  unfolding push
  push_lem config h message s {b} on m =
      let same : (b.config.enable_dedup && is_duplicate b s) ≡ contains b.seen_sequences s =
        unfold is_duplicate in
        and_true b.config.enable_dedup (contains b.seen_sequences s)
          (ap (λ (c : BufferConfig). c.enable_dedup) m.same_config ∙ on) in
      let seen : contains b.seen_sequences s ≡ contains (last_n config.dedup_window h) s =
        ap (λ xs. contains xs s) m.seen in
      elim (Bool-cases (contains b.seen_sequences s)) [
        | inl old ↦ if_true _ _ _ (same ∙ old) ∙ sym (if_true _ _ _ (sym seen ∙ old))
        | inr new ↦
            if_false _ _ _ (same ∙ new)
            ∙ ap (push_through message (some s)) (note_sequence-eq config h s on m new)
            ∙ sym (if_false _ _ _ (sym seen ∙ new))
      ]

  push_none-Remembers :
      (config : BufferConfig) (h : List S) (message : Option T) {b : MessageBuffer T S}
      → Remembers config b h
      → Remembers config (push_through message none b).1 h
  unfolding push_through
  push_none-Remembers config h message m = record {
    same_config = m.same_config;
    seen = m.seen;
    distinct = m.distinct;
  }

  push_new-Remembers :
      (config : BufferConfig) (h : List S) (message : Option T) (s : S) {b : MessageBuffer T S}
      → contains (last_n config.dedup_window h) s ≡ false
      → Remembers config b h
      → Remembers config (push_through message (some s) (noted config h s b)).1 (h ++ (s ∷ []))
  unfolding push_through
  push_new-Remembers config h message s new m = record {
    same_config = m.same_config;
    seen = refl;
    distinct =
        subst IsDistinct (last_n-append config.dedup_window h s)
          (IsDistinct-drop _ _ (IsDistinct-append (last_n config.dedup_window h) s m.distinct new));
  }

  after-Remembers :
      (config : BufferConfig) (c : Call T S) {b : MessageBuffer T S} {h : List S}
      → config.enable_dedup ≡ true
      → Remembers config b h
      → Remembers config (after b c) (fresh config.dedup_window h c)
  unfolding after fresh pop drain drain_with_sequences clear clear_dedup reset
  after-Remembers config (pushes message none) on m =
      unfold push in push_none-Remembers config _ message m
  after-Remembers config (pushes message (some s)) {b} {h} on m =
      subst
        (λ (p : Result Bool × MessageBuffer T S).
          Remembers config p.1 (fresh config.dedup_window h (pushes message (some s))))
        (sym (push_lem config h message s on m))
        (elim (Bool-cases (contains (last_n config.dedup_window h) s)) [
          | inl old ↦ rw old m
          | inr new ↦ rw new (push_new-Remembers config h message s new m)
        ])
  after-Remembers config pops on m = record {
    same_config = m.same_config;
    seen = m.seen;
    distinct = m.distinct;
  }
  after-Remembers config drains on m = record {
    same_config = m.same_config;
    seen = m.seen;
    distinct = m.distinct;
  }
  after-Remembers config drains_with_sequences on m = record {
    same_config = m.same_config;
    seen = m.seen;
    distinct = m.distinct;
  }
  after-Remembers config clears on m = record {
    same_config = m.same_config;
    seen = m.seen;
    distinct = m.distinct;
  }
  after-Remembers config clears_dedup on m = record {
    same_config = m.same_config;
    seen = sym (last_n-nil config.dedup_window);
    distinct = rw (last_n-nil {A = S} config.dedup_window) tt;
  }
  after-Remembers config resets on m = record {
    same_config = m.same_config;
    seen = sym (last_n-nil config.dedup_window);
    distinct = rw (last_n-nil {A = S} config.dedup_window) tt;
  }

  run-Remembers :
      (config : BufferConfig) (cs : List (Call T S)) {b : MessageBuffer T S} {h : List S}
      → config.enable_dedup ≡ true
      → Remembers config b h
      → Remembers config (run b cs) (history config.dedup_window h cs)
  unfolding run history
  run-Remembers config [] on m = m
  run-Remembers config (c ∷ cs) on m = run-Remembers config cs on (after-Remembers config c on m)

  init-Remembers : (config : BufferConfig) → Remembers config (init config) []
  unfolding init
  init-Remembers config = record {
    same_config = refl;
    seen = sym (last_n-nil config.dedup_window);
    distinct = rw (last_n-nil {A = S} config.dedup_window) tt;
  }

  -- With deduplication on, after any calls on a new buffer: a push of an ID that is one of the last
  -- `dedup_window` new IDs gives False and changes nothing; a push of any other ID is handed to the
  -- ring buffer, whatever that does with it, with the ID as the last one and the window moved on.
  pub dedup_exact :
      (config : BufferConfig) (cs : List (Call T S)) (message : Option T) (s : S)
      → config.enable_dedup ≡ true
      → push message (some s) (run (init config) cs) ≡ (
          if contains (last_n config.dedup_window (history config.dedup_window [] cs)) s
          then (ok false, run (init config) cs)
          else push_through message
              (some s)
              (noted config (history config.dedup_window [] cs) s (run (init config) cs)))
  dedup_exact config cs message s on =
      push_lem config (history config.dedup_window [] cs) message s on
        (run-Remembers config cs on (init-Remembers config))

  -- With deduplication on, after any calls on a new buffer the tracked IDs are at most
  -- `dedup_window` many, and no two of them are equal.
  pub window_bounded :
      (config : BufferConfig) (cs : List (Call T S))
      → config.enable_dedup ≡ true
      → let seen = (run (init config) cs).seen_sequences in
        (length seen ≤ config.dedup_window) × IsDistinct seen
  window_bounded config cs on =
      let m = run-Remembers config cs on (init-Remembers config) in
      rw m.seen (length-last_n config.dedup_window (history config.dedup_window [] cs), m.distinct)
