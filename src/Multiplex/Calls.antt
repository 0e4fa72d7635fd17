-- ===== src/Multiplex/Calls.antt =====
-- Any calls of jetsocket/multiplex.py keep its counts and bounds.
use jetsocket.Prelude.{
  ℕ, ◌+◌, refl, Bool, true, false, ◌&&◌, Option, none, some, List, [], ◌∷◌, ◌++◌, length, Eq,
  if_either,
}
use jetsocket.Exceptions.{Result, ok, err}
use jetsocket.Dict.{Dict, get, put}
use jetsocket.Multiplex.Defs.{
  MultiplexConfig, Subscription, Multiplex, Received, init, shut, update, is_active, queue_of,
  channel_of, shut_all, unroutable, route_to, route_in, route, subscribe_sent, subscribe_new,
  subscribe_with, subscribe, unsubscribe_at, unsubscribe, unsubscribe_from, close, connected_by,
  connect, take_from, recv, close_subscription,
}
use jetsocket.Multiplex.Counts.{
  IsSound, Fits, update-IsSound, deliver-IsSound, append-IsSound, shut-Fits, queue_of-Fits,
  tail-Fits,
}

-- The calls of the multiplexer, of its subscriptions by their places, and of its router; and
-- `links`, by which the manager's connection comes and goes.
pub data Call (K T : Type 0) : Type 0 where
  connects : Result (Unit {0}) → Call K T
  closes : Call K T
  subscribes : K → Result (Unit {0}) → Call K T
  unsubscribes : K → Call K T
  routes : Option T → Call K T
  receives drops : ℕ → Call K T
  links : Bool → Call K T

module _ {K T : Type 0} ⦃e : Eq K⦄ where
  unfoldable pub perform : Call K T → Multiplex K T → Multiplex K T
  perform (connects answer) m = (connect answer m).1
  perform closes m = close m
  perform (subscribes channel sent) m = (subscribe channel sent m).1
  perform (unsubscribes channel) m = (unsubscribe channel m).1
  perform (routes message) m = route m message
  perform (receives i) m = (recv i m).1
  perform (drops i) m = close_subscription i m
  perform (links up) m = record m { connected = up }

  -- The multiplexer after calls, the last one first.
  unfoldable pub after : MultiplexConfig K T → List (Call K T) → Multiplex K T
  after config [] = init config
  after config (c ∷ cs) = perform c (after config cs)

  abbrev pub Sound : Multiplex K T → Type 0
  Sound m = IsSound m.config.queue_size m.objects m.total_subscriptions m.total_messages_routed

  route_to-Sound :
      (message : Option T) (o : Option ℕ) (m : Multiplex K T)
      → Sound m
      → Sound (route_to message o m)
  unfolding route_to unroutable
  route_to-Sound message none m h = h
  route_to-Sound message (some i) m h =
      if_either Sound (is_active m.objects i) (λ active. deliver-IsSound message i active h)
        (λ _. h)

  route_in-Sound :
      (message : Option T) (r : Result (Option K)) (m : Multiplex K T)
      → Sound m
      → Sound (route_in message r m)
  unfolding route_in unroutable
  route_in-Sound message (err x) m h = h
  route_in-Sound message (ok none) m h = h
  route_in-Sound message (ok (some channel)) m h =
      route_to-Sound message (get m.subscriptions channel) m h

  subscribe_sent-Sound :
      (i : ℕ) (sent : Result (Unit {0})) (m : Multiplex K T)
      → Sound m
      → Sound (subscribe_sent i sent m).1
  unfolding subscribe_sent
  subscribe_sent-Sound i (ok _) m h = h
  subscribe_sent-Sound i (err x) m h = h

  subscribe_new-Sound :
      (channel : K) (sent : Result (Unit {0})) (m : Multiplex K T)
      → Sound m
      → Sound (subscribe_new channel sent m).1
  unfolding subscribe_new
  subscribe_new-Sound channel sent m h =
      let s : Subscription K T = record {
        channel = channel;
        queue = [];
        active = true;
        messages_received = 0;
      } in
      let m1 : Multiplex K T = record m {
        objects = m.objects ++ (s ∷ []);
        subscriptions = put m.subscriptions channel (length m.objects);
        total_subscriptions = m.total_subscriptions + 1;
      } in
      let h1 : Sound m1 = append-IsSound s refl refl h in
      if_either (λ (r : Result ℕ × Multiplex K T). Sound r.1) m.config.has_subscribe
        (λ _. subscribe_sent-Sound (length m.objects) sent m1 h1) (λ _. h1)

  subscribe_with-Sound :
      (channel : K) (sent : Result (Unit {0})) (o : Option ℕ) (m : Multiplex K T)
      → Sound m
      → Sound (subscribe_with channel sent o m).1
  unfolding subscribe_with
  subscribe_with-Sound channel sent none m h = subscribe_new-Sound channel sent m h
  subscribe_with-Sound channel sent (some i) m h = h

  unsubscribe_at-Sound :
      (channel : K) (o : Option ℕ) (m : Multiplex K T)
      → Sound m
      → Sound (unsubscribe_at channel o m).1
  unfolding unsubscribe_at shut
  unsubscribe_at-Sound channel none m h = h
  unsubscribe_at-Sound channel (some i) m h =
      update-IsSound (shut m.config.queue_size) i (λ s. shut-Fits m.config.queue_size s) (λ s. refl)
        h

  shut_all-IsSound :
      (size : ℕ) (d : Dict K ℕ) (objects : List (Subscription K T)) {created routed : ℕ}
      → IsSound size objects created routed
      → IsSound size (shut_all size d objects) created routed
  unfolding shut
  shut_all-IsSound size [] objects h = h
  shut_all-IsSound size ((channel, i) ∷ d) objects h =
      shut_all-IsSound size d (update (shut size) objects i)
        (update-IsSound (shut size) i (λ s. shut-Fits size s) (λ s. refl) h)

  unsubscribe_from-Sound :
      (o : Option K) (m : Multiplex K T) → Sound m → Sound (unsubscribe_from o m)
  unfolding unsubscribe_from unsubscribe
  unsubscribe_from-Sound none m h = h
  unsubscribe_from-Sound (some channel) m h =
      unsubscribe_at-Sound channel (get m.subscriptions channel) m h

  take_from-Sound :
      (queue : List (Option T)) (i : ℕ) (m : Multiplex K T)
      → Fits m.config.queue_size queue
      → Sound m
      → Sound (take_from queue i m).1
  unfolding take_from
  take_from-Sound [] i m fits h = h
  take_from-Sound (none ∷ queue) i m fits h =
      update-IsSound (λ s. record s { queue = queue; active = false }) i
        (λ s _. tail-Fits m.config.queue_size none queue fits) (λ s. refl) h
  take_from-Sound (some message ∷ queue) i m fits h =
      update-IsSound (λ s. record s { queue = queue }) i
        (λ s _. tail-Fits m.config.queue_size (some message) queue fits) (λ s. refl) h

  connected_by-Sound :
      (answer : Result (Unit {0})) (m : Multiplex K T) → Sound m → Sound (connected_by answer m).1
  unfolding connected_by
  connected_by-Sound (ok _) m h = h
  connected_by-Sound (err x) m h = h

  perform-Sound : (c : Call K T) (m : Multiplex K T) → Sound m → Sound (perform c m)
  unfolding perform connect close subscribe unsubscribe route recv close_subscription
  perform-Sound (connects answer) m h =
      if_either (λ (r : Result (Unit {0}) × Multiplex K T). Sound r.1) m.closed (λ _. h)
        (λ _.
          if_either (λ (r : Result (Unit {0}) × Multiplex K T). Sound r.1) m.has_manager (λ _. h)
            (λ _. connected_by-Sound answer (record m { has_manager = true }) h))
  perform-Sound closes m h =
      if_either Sound m.closed (λ _. h)
        (λ _. shut_all-IsSound m.config.queue_size m.subscriptions m.objects h)
  perform-Sound (subscribes channel sent) m h =
      if_either (λ (r : Result ℕ × Multiplex K T). Sound r.1) (m.has_manager && m.connected)
        (λ _. subscribe_with-Sound channel sent (get m.subscriptions channel) m h) (λ _. h)
  perform-Sound (unsubscribes channel) m h =
      unsubscribe_at-Sound channel (get m.subscriptions channel) m h
  perform-Sound (routes message) m h =
      if_either Sound m.routing
        (λ _. route_in-Sound message (m.config.channel_extractor message) m h) (λ _. h)
  perform-Sound (receives i) m h =
      if_either (λ (r : Received T × Multiplex K T). Sound r.1) (is_active m.objects i)
        (λ _.
          take_from-Sound (queue_of m.objects i) i m
            (queue_of-Fits m.config.queue_size m.objects i h.fits) h)
        (λ _. h)
  perform-Sound (drops i) m h =
      let m1 : Multiplex K T = record m {
        objects = update (λ s. record s { active = false }) m.objects i;
      } in
      if_either Sound (is_active m.objects i)
        (λ _.
          unsubscribe_from-Sound (channel_of m.objects i) m1
            (update-IsSound (λ s. record s { active = false }) i (λ s fits. fits) (λ s. refl) h))
        (λ _. h)
  perform-Sound (links up) m h = h

  -- After any calls, of the user, of the router and of the network, the count of routed messages is
  -- the sum of what the subscriptions have received, those closed included, the count of
  -- subscriptions is that of the objects made, and no queue is longer than its bound.
  pub counts_agree :
      (config : MultiplexConfig K T) (cs : List (Call K T))
      → let m = after config cs in
        IsSound m.config.queue_size m.objects m.total_subscriptions m.total_messages_routed
  unfolding after init
  counts_agree config [] = record { receipts = refl; creations = refl; fits = tt }
  counts_agree config (c ∷ cs) = perform-Sound c (after config cs) (counts_agree config cs)
