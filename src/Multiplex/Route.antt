-- ===== src/Multiplex/Route.antt =====
-- Which messages a subscription of jetsocket/multiplex.py gets, and in which order.
use jetsocket.Prelude.{
  ℕ, zero, suc, ◌+◌, ◌≡◌, ◌≢◌, refl, sym, ap, ap₂, subst, ◌∙◌, true, false, Option, none, some,
  List, [], ◌∷◌, ◌++◌, append-nil, append_assoc, ◌==◌, ==_iff, Eq, if◌then◌else◌, if_either,
  if_true, if_false, arith,
}
use jetsocket.Exceptions.{Result, ok, err}
use jetsocket.Dict.{Dict, get}
use jetsocket.Multiplex.Defs.{
  MultiplexConfig, Subscription, Multiplex, enqueue, deliver, update, is_active, queue_of,
  unroutable, route_to, route_in, route,
}
use jetsocket.Multiplex.Counts.{Fits}
use jetsocket.Multiplex.Keeps.{Keeps, kept_all, enqueue-Keeps, then_more}

module _ {K T : Type 0} where
  queue_of-deliver :
      (size : ℕ) (message : Option T) (objects : List (Subscription K T)) (i : ℕ)
      → is_active objects i ≡ true
      → queue_of (update (deliver size message) objects i) i
        ≡ enqueue size message (queue_of objects i)
  unfolding deliver
  queue_of-deliver size message [] i h = absurd (ground arith)
  queue_of-deliver size message (s ∷ objects) zero h = refl
  queue_of-deliver size message (s ∷ objects) (suc i) h = queue_of-deliver size message objects i h

  queue_of-other :
      (f : Subscription K T → Subscription K T) (objects : List (Subscription K T)) (i j : ℕ)
      → i ≢ j
      → queue_of (update f objects j) i ≡ queue_of objects i
  queue_of-other f [] i j h = refl
  queue_of-other f (s ∷ objects) zero zero h = absurd (h refl)
  queue_of-other f (s ∷ objects) zero (suc j) h = refl
  queue_of-other f (s ∷ objects) (suc i) zero h = refl
  queue_of-other f (s ∷ objects) (suc i) (suc j) h =
      queue_of-other f objects i j (λ x. h (ap suc x))

  is_active-deliver :
      (size : ℕ) (message : Option T) (objects : List (Subscription K T)) (i j : ℕ)
      → is_active (update (deliver size message) objects j) i ≡ is_active objects i
  unfolding deliver
  is_active-deliver size message [] i j = refl
  is_active-deliver size message (s ∷ objects) zero zero = refl
  is_active-deliver size message (s ∷ objects) zero (suc j) = refl
  is_active-deliver size message (s ∷ objects) (suc i) zero = refl
  is_active-deliver size message (s ∷ objects) (suc i) (suc j) =
      is_active-deliver size message objects i j

-- What a message is for a subscription: nothing, where the extractor does not name its channel.
abbrev pub for_place : {T : Type 0} → Option T → ℕ → Option ℕ → List (Option T)
for_place message i none = []
for_place message i (some j) = if j == i then message ∷ [] else []

module _ {K T : Type 0} ⦃e : Eq K⦄ where
  -- The router after messages, the first one first.
  unfoldable pub route_all : List (Option T) → Multiplex K T → Multiplex K T
  route_all [] m = m
  route_all (message ∷ messages) m = route_all messages (route m message)

  -- What a message is for a place, and what it is followed by: an exception of the extractor ends
  -- the router.
  abbrev pub messages_after :
      Dict K ℕ → ℕ → Option T → Result (Option K) → List (Option T) → List (Option T)
  messages_after d i message (err x) rest = []
  messages_after d i message (ok none) rest = rest
  messages_after d i message (ok (some channel)) rest = for_place message i (get d channel) ++ rest

  -- The messages for a place.
  abbrev pub messages_for : MultiplexConfig K T → Dict K ℕ → ℕ → List (Option T) → List (Option T)
  messages_for config d i [] = []
  messages_for config d i (message ∷ messages) =
      messages_after d i message (config.channel_extractor message)
        (messages_for config d i messages)

  -- A multiplexer that has put `xs` at a place, and routes on.
  record Routed (xs : List (Option T)) (i : ℕ) (m m' : Multiplex K T) : Type 0 where
    config : m'.config ≡ m.config
    subscriptions : m'.subscriptions ≡ m.subscriptions
    active : is_active m'.objects i ≡ is_active m.objects i
    keeps : Keeps m.config.queue_size (queue_of m.objects i ++ xs) (queue_of m'.objects i)
    routing : m'.routing ≡ m.routing

  abbrev FitsAt : ℕ → Multiplex K T → Type 0
  FitsAt i m = Fits m.config.queue_size (queue_of m.objects i)

  left_alone :
      (i : ℕ) (m m' : Multiplex K T)
      → FitsAt i m
      → m'.config ≡ m.config
      → m'.subscriptions ≡ m.subscriptions
      → is_active m'.objects i ≡ is_active m.objects i
      → queue_of m'.objects i ≡ queue_of m.objects i
      → m'.routing ≡ m.routing
      → Routed [] i m m'
  left_alone i m m' h c s a q r = record {
    config = c;
    subscriptions = s;
    active = a;
    keeps =
        subst (λ xs. Keeps m.config.queue_size xs (queue_of m'.objects i))
          (sym (append-nil (queue_of m.objects i)))
          (subst (Keeps m.config.queue_size (queue_of m.objects i)) (sym q)
            (kept_all m.config.queue_size (queue_of m.objects i) h));
    routing = r;
  }

  delivered_here :
      (message : Option T) (i : ℕ) (m : Multiplex K T)
      → is_active m.objects i ≡ true
      → FitsAt i m
      → Routed (message ∷ []) i m (route_to message (some i) m)
  unfolding route_to
  delivered_here message i m active h =
      let size = m.config.queue_size in
      if_either (Routed (message ∷ []) i m) (is_active m.objects i)
        (λ _. record {
          config = refl;
          subscriptions = refl;
          active = is_active-deliver size message m.objects i i;
          keeps =
              subst (Keeps size (queue_of m.objects i ++ (message ∷ [])))
                (sym (queue_of-deliver size message m.objects i active))
                (enqueue-Keeps size message (queue_of m.objects i) h);
          routing = refl;
        })
        (λ inactive. absurd (ground (arith, active, inactive)))

  delivered_there :
      (message : Option T) (i j : ℕ) (m : Multiplex K T)
      → i ≢ j
      → FitsAt i m
      → Routed [] i m (route_to message (some j) m)
  unfolding route_to unroutable
  delivered_there message i j m differ h =
      let size = m.config.queue_size in
      let m1 : Multiplex K T = record m {
        objects = update (deliver size message) m.objects j;
        total_messages_routed = m.total_messages_routed + 1;
      } in
      if_either (Routed [] i m) (is_active m.objects j)
        (λ _.
          left_alone i m m1 h refl refl (is_active-deliver size message m.objects i j)
            (queue_of-other (deliver size message) m.objects i j differ) refl)
        (λ _. left_alone i m (unroutable m) h refl refl refl refl refl)

  route_to-Routed :
      (message : Option T) (i : ℕ) (o : Option ℕ) (m : Multiplex K T)
      → is_active m.objects i ≡ true
      → FitsAt i m
      → Routed (for_place message i o) i m (route_to message o m)
  unfolding route_to unroutable
  route_to-Routed message i none m active h =
      left_alone i m (unroutable m) h refl refl refl refl refl
  route_to-Routed message i (some j) m active h =
      if_either (λ xs. Routed xs i m (route_to message (some j) m)) (j == i)
        (λ same.
          subst (λ j. Routed (message ∷ []) i m (route_to message (some j) m))
            (sym ((==_iff j i).0 same)) (delivered_here message i m active h))
        (λ differ. delivered_there message i j m (λ p. ground (arith, p, differ)) h)

  idle_router :
      (messages : List (Option T)) (m : Multiplex K T)
      → m.routing ≡ false
      → route_all messages m ≡ m
  unfolding route_all route
  idle_router [] m h = refl
  idle_router (message ∷ messages) m h =
      ap (route_all messages) (if_false m.routing _ _ h) ∙ idle_router messages m h

  combined :
      {xs : List (Option T)} (more : List (Option T)) {last : List (Option T)} {i : ℕ}
      {m m1 : Multiplex K T}
      → Routed xs i m m1
      → Keeps m1.config.queue_size (queue_of m1.objects i ++ more) last
      → Keeps m.config.queue_size (queue_of m.objects i ++ (xs ++ more)) last
  combined {xs} more {last} {i} {m} {m1} r k =
      let k' : Keeps m.config.queue_size (queue_of m1.objects i ++ more) last =
        subst (λ (c : MultiplexConfig K T). Keeps c.queue_size (queue_of m1.objects i ++ more) last)
          r.config k in
      subst (λ all. Keeps m.config.queue_size all last)
        (append_assoc (queue_of m.objects i) xs more) (then_more more r.keeps k')

  -- The property for the messages that follow, in a multiplexer that has routed one.
  abbrev Follows : List (Option T) → ℕ → Multiplex K T → Type 0
  Follows messages i m =
      m.routing ≡ true
      → is_active m.objects i ≡ true
      → FitsAt i m
      → Keeps m.config.queue_size
          (queue_of m.objects i ++ messages_for m.config m.subscriptions i messages)
          (queue_of (route_all messages m).objects i)

  after_one :
      (messages : List (Option T)) {xs : List (Option T)} (i : ℕ) (m m1 : Multiplex K T)
      → m.routing ≡ true
      → is_active m.objects i ≡ true
      → Routed xs i m m1
      → Follows messages i m1
      → Keeps m.config.queue_size
          (queue_of m.objects i ++ (xs ++ messages_for m.config m.subscriptions i messages))
          (queue_of (route_all messages m1).objects i)
  after_one messages i m m1 routing active r follows =
      let fits : FitsAt i m1 =
        subst (λ (c : MultiplexConfig K T). Fits c.queue_size (queue_of m1.objects i))
          (sym r.config) r.keeps.fits in
      combined (messages_for m.config m.subscriptions i messages) r (
        subst
          (λ xs.
            Keeps m1.config.queue_size (queue_of m1.objects i ++ xs)
              (queue_of (route_all messages m1).objects i))
          (ap₂ (λ c d. messages_for c d i messages) r.config r.subscriptions)
          (follows (r.routing ∙ routing) (r.active ∙ active) fits))

  after_next :
      (message : Option T) (messages : List (Option T)) (i : ℕ) (r : Result (Option K))
      (m : Multiplex K T)
      → ((m1 : Multiplex K T) → Follows messages i m1)
      → m.routing ≡ true
      → is_active m.objects i ≡ true
      → FitsAt i m
      → Keeps m.config.queue_size
          (queue_of m.objects i
            ++ messages_after m.subscriptions i message r
                (messages_for m.config m.subscriptions i messages))
          (queue_of (route_all messages (route_in message r m)).objects i)
  unfolding route_in unroutable
  after_next message messages i (err x) m follows routing active fits =
      subst
        (λ (m1 : Multiplex K T).
          Keeps m.config.queue_size (queue_of m.objects i ++ []) (queue_of m1.objects i))
        (sym (idle_router messages (record m { routing = false }) refl))
        (subst (λ all. Keeps m.config.queue_size all (queue_of m.objects i))
          (sym (append-nil (queue_of m.objects i)))
          (kept_all m.config.queue_size (queue_of m.objects i) fits))
  after_next message messages i (ok none) m follows routing active fits =
      follows (unroutable m) routing active fits
  after_next message messages i (ok (some channel)) m follows routing active fits =
      after_one messages i m (route_to message (get m.subscriptions channel) m) routing active
        (route_to-Routed message i (get m.subscriptions channel) m active fits)
        (follows (route_to message (get m.subscriptions channel) m))

  -- While the router runs, an active subscription gets the messages for its channel in order and
  -- no others, up to one for which the extractor raises: its queue ends as the newest of what it
  -- held and what it got, the oldest are dropped only where the queue is full, and it is never
  -- longer than its bound.
  pub route_window :
      (messages : List (Option T)) (i : ℕ) (m : Multiplex K T)
      → m.routing ≡ true
      → is_active m.objects i ≡ true
      → Fits m.config.queue_size (queue_of m.objects i)
      → Keeps m.config.queue_size
          (queue_of m.objects i ++ messages_for m.config m.subscriptions i messages)
          (queue_of (route_all messages m).objects i)
  unfolding route_all route
  route_window [] i m routing active fits =
      subst (λ all. Keeps m.config.queue_size all (queue_of m.objects i))
        (sym (append-nil (queue_of m.objects i)))
        (kept_all m.config.queue_size (queue_of m.objects i) fits)
  route_window (message ∷ messages) i m routing active fits =
      subst
        (λ (m1 : Multiplex K T).
          Keeps m.config.queue_size
            (queue_of m.objects i ++ messages_for m.config m.subscriptions i (message ∷ messages))
            (queue_of (route_all messages m1).objects i))
        (sym (if_true m.routing _ _ routing))
        (after_next message messages i (m.config.channel_extractor message) m
          (route_window messages i) routing active fits)
