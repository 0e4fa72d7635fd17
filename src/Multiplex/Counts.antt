-- ===== src/Multiplex/Counts.antt =====
-- The counts and the bounded queues of jetsocket/multiplex.py.
use jetsocket.Prelude.{
  ℕ, zero, suc, ◌+◌, ◌≤◌, ◌<◌, ◌≡◌, refl, ap, ◌∙◌, true, false, Option, none, List, [], ◌∷◌, ◌++◌,
  length, length-append, if◌then◌else◌, if_either, arith,
}
use jetsocket.Multiplex.Defs.{
  Subscription, is_full, enqueue, deliver, shut, update, is_active, queue_of,
}

-- A queue within the bound, where there is one.
abbrev pub Fits : {T : Type 0} → ℕ → List (Option T) → Type 0
Fits queue_size queue = 0 < queue_size → length queue ≤ queue_size

module _ {T : Type 0} where
  pub enqueue-Fits :
      (size : ℕ) (message : Option T) (queue : List (Option T))
      → Fits size queue
      → Fits size (enqueue size message queue)
  unfolding enqueue
  enqueue-Fits size message [] h pos =
      let one : length (message ∷ []) ≤ size = omega (arith, pos) in
      if_either (λ (q : List (Option T)). length q ≤ size) (is_full {T = T} size []) (λ _. one)
        (λ _. one)
  enqueue-Fits size message (x ∷ queue) h pos =
      let moved : length (queue ++ (message ∷ [])) ≤ size =
        omega (arith, h pos, length-append queue (message ∷ [])) in
      let grown : is_full size (x ∷ queue) ≡ false → length (x ∷ (queue ++ (message ∷ []))) ≤ size =
        λ room. ground (arith, pos, room, h pos, length-append queue (message ∷ [])) in
      if_either (λ (q : List (Option T)). length q ≤ size) (is_full size (x ∷ queue)) (λ _. moved)
        grown

  -- The next message, or the mark, is taken from the front.
  pub tail-Fits :
      (size : ℕ) (x : Option T) (queue : List (Option T)) → Fits size (x ∷ queue) → Fits size queue
  tail-Fits size x queue h pos = omega (arith, h pos)

  -- The mark of a closed queue is put where there is room.
  marked-Fits :
      (size : ℕ) (queue : List (Option T))
      → Fits size queue
      → Fits size (if is_full size queue then queue else queue ++ (none ∷ []))
  marked-Fits size queue h pos =
      let grown : is_full size queue ≡ false → length (queue ++ (none ∷ [])) ≤ size =
        λ room. ground (arith, pos, room, h pos, length-append queue (none ∷ [])) in
      if_either (λ (q : List (Option T)). length q ≤ size) (is_full size queue) (λ _. h pos) grown

module _ {K T : Type 0} where
  abbrev pub all_received : List (Subscription K T) → ℕ
  all_received [] = 0
  all_received (s ∷ objects) = s.messages_received + all_received objects

  abbrev pub AllFit : ℕ → List (Subscription K T) → Type 0
  AllFit queue_size [] = Unit {0}
  AllFit queue_size (s ∷ objects) = Fits queue_size s.queue × AllFit queue_size objects

  -- The counts of the multiplexer are those of its subscriptions, and no queue is over its bound.
  pub record IsSound (size : ℕ) (objects : List (Subscription K T)) (created routed : ℕ)
      : Type 0 where
    pub receipts : all_received objects ≡ routed
    pub creations : length objects ≡ created
    pub fits : AllFit size objects

  pub shut-Fits :
      (size : ℕ) (s : Subscription K T) → Fits size s.queue → Fits size (shut size s).queue
  unfolding shut
  shut-Fits size s h = marked-Fits size s.queue h

  update-Fits :
      (size : ℕ) (f : Subscription K T → Subscription K T)
      → ((s : Subscription K T) → Fits size s.queue → Fits size (f s).queue)
      → (objects : List (Subscription K T)) (i : ℕ) → AllFit size objects
      → AllFit size (update f objects i)
  update-Fits size f k [] i h = tt
  update-Fits size f k (s ∷ objects) zero h = (k s h.0, h.1)
  update-Fits size f k (s ∷ objects) (suc i) h = (h.0, update-Fits size f k objects i h.1)

  length-update :
      (f : Subscription K T → Subscription K T) (objects : List (Subscription K T)) (i : ℕ)
      → length (update f objects i) ≡ length objects
  length-update f [] i = refl
  length-update f (s ∷ objects) zero = refl
  length-update f (s ∷ objects) (suc i) = ap suc (length-update f objects i)

  received-update :
      (f : Subscription K T → Subscription K T)
      → ((s : Subscription K T) → (f s).messages_received ≡ s.messages_received)
      → (objects : List (Subscription K T)) (i : ℕ)
      → all_received (update f objects i) ≡ all_received objects
  received-update f k [] i = refl
  received-update f k (s ∷ objects) zero = ap (λ n. n + all_received objects) (k s)
  received-update f k (s ∷ objects) (suc i) =
      ap (λ n. s.messages_received + n) (received-update f k objects i)

  received-deliver :
      (size : ℕ) (message : Option T) (objects : List (Subscription K T)) (i : ℕ)
      → is_active objects i ≡ true
      → all_received (update (deliver size message) objects i) ≡ all_received objects + 1
  unfolding deliver
  received-deliver size message [] i h = absurd (ground arith)
  received-deliver size message (s ∷ objects) zero h = omega arith
  received-deliver size message (s ∷ objects) (suc i) h =
      omega (arith, received-deliver size message objects i h)

  -- A change of an object that keeps the counts and the bound.
  pub update-IsSound :
      {size : ℕ} {objects : List (Subscription K T)} {created routed : ℕ}
      (f : Subscription K T → Subscription K T) (i : ℕ)
      → ((s : Subscription K T) → Fits size s.queue → Fits size (f s).queue)
      → ((s : Subscription K T) → (f s).messages_received ≡ s.messages_received)
      → IsSound size objects created routed
      → IsSound size (update f objects i) created routed
  update-IsSound {size} {objects} f i k r h = record {
    receipts = received-update f r objects i ∙ h.receipts;
    creations = length-update f objects i ∙ h.creations;
    fits = update-Fits size f k objects i h.fits;
  }

  pub deliver-IsSound :
      {size : ℕ} {objects : List (Subscription K T)} {created routed : ℕ} (message : Option T)
      (i : ℕ)
      → is_active objects i ≡ true
      → IsSound size objects created routed
      → IsSound size (update (deliver size message) objects i) created (routed + 1)
  unfolding deliver
  deliver-IsSound {size} {objects} message i active h = record {
    receipts = received-deliver size message objects i active ∙ ap (λ n. n + 1) h.receipts;
    creations = length-update (deliver size message) objects i ∙ h.creations;
    fits =
        update-Fits size (deliver size message) (λ s. enqueue-Fits size message s.queue) objects i
          h.fits;
  }

  -- A new object, with an empty queue.
  AllFit-append :
      (size : ℕ) (objects : List (Subscription K T)) (s : Subscription K T)
      → s.queue ≡ []
      → AllFit size objects
      → AllFit size (objects ++ (s ∷ []))
  AllFit-append size [] s e h = (λ pos. rw e (omega arith), tt)
  AllFit-append size (x ∷ objects) s e h = (h.0, AllFit-append size objects s e h.1)

  received-append :
      (objects : List (Subscription K T)) (s : Subscription K T)
      → s.messages_received ≡ 0
      → all_received (objects ++ (s ∷ [])) ≡ all_received objects
  received-append [] s e = omega (arith, e)
  received-append (x ∷ objects) s e = omega (arith, received-append objects s e)

  pub append-IsSound :
      {size : ℕ} {objects : List (Subscription K T)} {created routed : ℕ} (s : Subscription K T)
      → s.queue ≡ []
      → s.messages_received ≡ 0
      → IsSound size objects created routed
      → IsSound size (objects ++ (s ∷ [])) (created + 1) routed
  append-IsSound {size} {objects} s q n h = record {
    receipts = received-append objects s n ∙ h.receipts;
    creations = omega (arith, length-append objects (s ∷ []), h.creations);
    fits = AllFit-append size objects s q h.fits;
  }

  pub queue_of-Fits :
      (size : ℕ) (objects : List (Subscription K T)) (i : ℕ)
      → AllFit size objects
      → Fits size (queue_of objects i)
  queue_of-Fits size [] i h = λ pos. omega arith
  queue_of-Fits size (s ∷ objects) zero h = h.0
  queue_of-Fits size (s ∷ objects) (suc i) h = queue_of-Fits size objects i h.1
