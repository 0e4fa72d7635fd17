-- ===== src/Multiplex/Retry.antt =====
-- What jetsocket/multiplex.py does when a call that failed is made again.
use jetsocket.Prelude.{
  ℕ, ◌≡◌, refl, subst, sym, ap, ◌∙◌, true, false, ◌&&◌, none, [], ◌∷◌, ◌++◌, ◌+◌, length, Eq,
  if_true, if_false,
}
use jetsocket.Exceptions.{Error, Result, ok, err, invalid_state_error}
use jetsocket.Dict.{get, put, get-put_self}
use jetsocket.Multiplex.Defs.{
  Multiplex, subscribe_sent, subscribe_new, subscribe_with, subscribe, connected_by, connect,
}

module _ {K T : Type 0} ⦃e : Eq K⦄ where
  -- Where the message of a new subscription cannot be sent, `subscribe` raises but keeps the
  -- subscription: called again, it gives that subscription, sends nothing and changes nothing.
  pub subscribe_again :
      (channel : K) (x : Error) (sent : Result (Unit {0})) (m : Multiplex K T)
      → m.has_manager ≡ true
      → m.connected ≡ true
      → m.config.has_subscribe ≡ true
      → get m.subscriptions channel ≡ none
      → let r = subscribe channel (err x) m in
        (r.0 ≡ err x) × (subscribe channel sent r.1 ≡ (ok (length m.objects), r.1))
  unfolding subscribe subscribe_with subscribe_new subscribe_sent
  subscribe_again channel x sent m manager up sends new =
      let m1 : Multiplex K T = record m {
        objects =
            m.objects
            ++ (record { channel = channel; queue = []; active = true; messages_received = 0 }
                ∷ []);
        subscriptions = put m.subscriptions channel (length m.objects);
        total_subscriptions = m.total_subscriptions + 1;
      } in
      let ready : m.has_manager && m.connected ≡ true = rw (manager, up) refl in
      let first : subscribe channel (err x) m ≡ (err x, m1) =
        if_true (m.has_manager && m.connected) _ _ ready
        ∙ ap (λ o. subscribe_with channel (err x) o m) new
        ∙ if_true m.config.has_subscribe _ _ sends in
      let second : subscribe channel sent m1 ≡ (ok (length m.objects), m1) =
        if_true (m.has_manager && m.connected) _ _ ready
        ∙ ap (λ o. subscribe_with channel sent o m1)
            (get-put_self m.subscriptions channel (length m.objects)) in
      subst
        (λ (r : Result ℕ × Multiplex K T).
          (r.0 ≡ err x) × (subscribe channel sent r.1 ≡ (ok (length m.objects), r.1)))
        (sym first) (refl, second)

  -- Where the manager cannot connect, `connect` raises its exception but keeps the manager: called
  -- again, it raises InvalidStateError, and changes nothing, and so does `subscribe` meanwhile.
  pub connect_again :
      (x : Error) (answer sent : Result (Unit {0})) (channel : K) (m : Multiplex K T)
      → m.closed ≡ false
      → m.has_manager ≡ false
      → m.connected ≡ false
      → let r = connect (err x) m in
        (r.0 ≡ err x)
        × (connect answer r.1 ≡ (err invalid_state_error, r.1))
        × (subscribe channel sent r.1 ≡ (err invalid_state_error, r.1))
  unfolding connect connected_by subscribe
  connect_again x answer sent channel m opened unmanaged down =
      let m1 : Multiplex K T = record m { has_manager = true } in
      let first : connect (err x) m ≡ (err x, m1) =
        if_false m.closed _ _ opened ∙ if_false m.has_manager _ _ unmanaged in
      subst
        (λ (r : Result (Unit {0}) × Multiplex K T).
          (r.0 ≡ err x)
          × (connect answer r.1 ≡ (err invalid_state_error, r.1))
          × (subscribe channel sent r.1 ≡ (err invalid_state_error, r.1)))
        (sym first) (refl, if_false m.closed _ _ opened, if_false m.connected _ _ down)
