-- ===== src/Pool/Idle.antt =====
-- What becomes of the idle connections of jetsocket/pool.py.
use jetsocket.Prelude.{
  ℕ, zero, suc, ◌+◌, ◌-◌, ◌≡◌, refl, sym, ap, subst, ◌∙◌, Bool, true, false, ◌&&◌, ◌||◌, Option,
  none, some, List, [], ◌∷◌, ◌++◌, length, ◌==◌, Eq, if◌then◌else◌, if_true, if_false, arith,
}
use jetsocket.State.{ConnectionState, connected, closed, is_terminal}
use jetsocket.Dict.{get, put, get-put_self}
use jetsocket.Pool.Defs.{
  Attempt, connects, Reply, acquired, acquire_idle, at_lookup, Connection, Pool, update, object_at,
  mark, close_connection, is_usable, is_dead, is_held, or_none, remove_from, remove_object,
  remove_connection, get_idle_connection, create_connection, acquire_with, acquire, dispose,
  released, release,
}

-- A manager that has been closed has ended.
closed_terminal : (s : ConnectionState) → is_terminal (if is_terminal s then s else closed) ≡ true
closed_terminal s = ground arith

module _ {K : Type 0} where
  -- A connection that is in use and whose manager has ended.
  abbrev pub is_cut : Option (Connection K) → Bool
  is_cut none = false
  is_cut (some c) = c.in_use && is_terminal c.state

  cut :
      (objects : List (Connection K)) (i : ℕ)
      → is_usable (object_at objects i) ≡ true
      → is_cut (object_at (update close_connection (update (mark true) objects i) i) i) ≡ true
  cut [] i h = absurd (ground arith)
  cut (c ∷ objects) zero h = closed_terminal c.state
  cut (c ∷ objects) (suc i) h = cut objects i h

  object_at-new :
      (objects : List (Connection K)) (c : Connection K)
      → object_at (objects ++ (c ∷ [])) (length objects) ≡ some c
  object_at-new [] c = refl
  object_at-new (x ∷ objects) c = object_at-new objects c

  object_at-update :
      (f : Connection K → Connection K) (objects : List (Connection K)) (i : ℕ) (c : Connection K)
      → object_at objects i ≡ some c
      → object_at (update f objects i) i ≡ some (f c)
  object_at-update f [] i c h = absurd (ground arith)
  object_at-update f (x ∷ objects) zero c h =
      ap (λ o. elim o as (λ _. Option (Connection K)) [ none ↦ none | some c ↦ some (f c) ]) h
  object_at-update f (x ∷ objects) (suc i) c h = object_at-update f objects i c h

module _ {K : Type 0} ⦃e : Eq K⦄ where
  remove_from-objects :
      (uri : K) (i : ℕ) (o : Option (List ℕ)) (p : Pool K)
      → (remove_from uri i o p).objects ≡ p.objects
  unfolding remove_from
  remove_from-objects uri i none p = refl
  remove_from-objects uri i (some places) p = refl

  remove_object-objects :
      (i : ℕ) (o : Option (Connection K)) (p : Pool K) → (remove_object i o p).objects ≡ p.objects
  unfolding remove_object
  remove_object-objects i none p = refl
  remove_object-objects i (some c) p = remove_from-objects c.uri i (get p.connections c.uri) p

  remove_connection-objects : (i : ℕ) (p : Pool K) → (remove_connection i p).objects ≡ p.objects
  unfolding remove_connection
  remove_connection-objects i p = remove_object-objects i (object_at p.objects i) p

  -- Where an open pool with a permit left has an idle connection that is usable, and a user
  -- acquires it after a background loop has collected it and before the loop closes it, the user
  -- gets that connection and the loop closes it all the same: it is in use and has ended.
  pub sweep_cuts_user :
      (uri : K) (attempt : Attempt) (i : ℕ) (p : Pool K)
      → at_lookup attempt ≡ false
      → p.closed ≡ false
      → (p.permits == 0) ≡ false
      → get_idle_connection uri p ≡ some i
      → is_usable (object_at p.objects i) ≡ true
      → let r = acquire uri attempt p in
        (r.0 ≡ acquired i) × (is_cut (object_at (dispose i r.1).objects i) ≡ true)
  unfolding acquire acquire_idle acquire_with dispose get_idle_connection
  sweep_cuts_user uri attempt i p looks opened more idle usable =
      let p1 : Pool K = record p {
        permits = p.permits - 1;
        objects = update (mark true) p.objects i;
      } in
      let got : acquire uri attempt p ≡ (acquired i, p1) =
        if_false p.closed _ _ opened
        ∙ if_false (p.permits == 0) _ _ more
        ∙ if_false (at_lookup attempt) _ _ looks
        ∙ ap (λ o. acquire_with uri attempt o (record p { permits = p.permits - 1 })) idle
        ∙ if_true (is_usable (object_at p.objects i)) _ _ usable in
      subst
        (λ (r : Reply × Pool K).
          (r.0 ≡ acquired i) × (is_cut (object_at (dispose i r.1).objects i) ≡ true))
        (sym got)
        (
          refl,
          ap (λ objects. is_cut (object_at objects i))
                (remove_connection-objects i
                  (record p1 { objects = update close_connection p1.objects i }))
              ∙ cut p.objects i usable,
        )

  -- Where the pool is open, has a permit and no idle connection for a URI, and a connection to it
  -- succeeds, then to acquire and release it gives the permit back and leaves the new connection open
  -- and idle, as one more at the end of the pool's list for the URI: no permit counts it.
  pub idle_stays_open :
      (uri : K) (p : Pool K)
      → p.closed ≡ false
      → (p.permits == 0) ≡ false
      → get_idle_connection uri p ≡ none
      → let p' = release (length p.objects) (acquire uri (connects connected) p).1 in
        (p'.permits ≡ p.permits)
        × (object_at p'.objects (length p.objects)
            ≡ some (record { uri = uri; state = connected; in_use = false }))
        × (get p'.connections uri
            ≡ some (or_none (get p.connections uri) ++ (length p.objects ∷ [])))
  unfolding acquire acquire_idle acquire_with create_connection release released get_idle_connection
  idle_stays_open uri p opened more none_idle =
      let i = length p.objects in
      let c : Connection K = record { uri = uri; state = connected; in_use = true } in
      let p1 : Pool K = record p {
        permits = p.permits - 1;
        objects = p.objects ++ (c ∷ []);
        connections = put p.connections uri (or_none (get p.connections uri) ++ (i ∷ []));
        connection_count = p.connection_count + 1;
      } in
      let p2 : Pool K = record p1 {
        permits = p.permits - 1 + 1;
        objects = update (mark false) p1.objects i;
      } in
      let got : acquire uri (connects connected) p ≡ (acquired i, p1) =
        if_false p.closed _ _ opened
        ∙ if_false (p.permits == 0) _ _ more
        ∙ ap (λ o. acquire_with uri (connects connected) o (record p { permits = p.permits - 1 }))
            none_idle in
      let new : object_at p1.objects i ≡ some c = object_at-new p.objects c in
      let back : object_at p2.objects i ≡ some (mark false c) =
        object_at-update (mark false) p1.objects i c new in
      let freed : release i p1 ≡ p2 =
        if_true (is_held (object_at p1.objects i)) _ _ (ap is_held new)
        ∙ if_false (p2.closed || is_dead (object_at p2.objects i)) _ _ (rw (opened, back) refl) in
      subst
        (λ (r : Reply × Pool K).
          let p' = release i r.1 in
          (p'.permits ≡ p.permits)
          × (object_at p'.objects i ≡ some (mark false c))
          × (get p'.connections uri ≡ some (or_none (get p.connections uri) ++ (i ∷ []))))
        (sym got)
        (subst
          (λ (p' : Pool K).
            (p'.permits ≡ p.permits)
            × (object_at p'.objects i ≡ some (mark false c))
            × (get p'.connections uri ≡ some (or_none (get p.connections uri) ++ (i ∷ []))))
          (sym freed)
          (
            ground (arith, more),
            back,
            get-put_self p.connections uri (or_none (get p.connections uri) ++ (i ∷ [])),
          ))
