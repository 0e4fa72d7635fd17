-- ===== src/SyncClient/Handlers.antt =====
-- The handlers that the user registered before connecting.
use jetsocket.Prelude.{Bool, true, false, ◌||◌, some, [], ◌≡◌, refl, ap, ap₂, ◌∙◌, Eq, if_false}
use jetsocket.Exceptions.{Error, Result, ok, err}
use jetsocket.Events.Emitter as Emitters
use jetsocket.SyncClient.Defs.{
  SyncWebSocket, shutdown_loop, register, run_event_loop, connected, connect_failure, connect,
}

module _ {K H M : Type 0} ⦃k : Eq K⦄ ⦃h : Eq H⦄ where
  connect_starts :
      (event : K) (forward : H) (outcome : Result (Unit {0})) (t : SyncWebSocket K H M)
      → t.closed ≡ false
      → t.thread_alive ≡ false
      → connect event forward true outcome t ≡ connected outcome (run_event_loop event forward t)
  unfolding connect
  connect_starts event forward outcome t c a =
      if_false (t.closed || t.thread_alive) _ _ (ap₂ (λ (b d : Bool). b || d) c a)

  -- On a client that is not closed and has no thread: if the first `connect` succeeds, its manager has
  -- the handlers registered before, and the one that forwards messages; if the first fails and a second
  -- one succeeds, the second manager has the forwarding handler only, for any handlers registered before.
  pub connect_retry :
      (event : K) (forward : H) (error : Error) (t : SyncWebSocket K H M)
      → t.closed ≡ false
      → t.thread_alive ≡ false
      → ((connect event forward true (ok tt) t).1.manager
          ≡ some (Emitters.add_handler event forward (register t.pending_handlers [])))
        × (((connect event forward true (err error) t).0 ≡ err (connect_failure error))
            × ((connect event forward true
                  (ok tt)
                  (connect event forward true (err error) t).1).1.manager
                ≡ some (Emitters.add_handler event forward [])))
  unfolding run_event_loop shutdown_loop
  connect_retry event forward error t c a =
      let failed : SyncWebSocket K H M = shutdown_loop (run_event_loop event forward t) in
      (
        ap (λ (r : Result (Unit {0}) × SyncWebSocket K H M). r.1.manager)
            (connect_starts event forward (ok tt) t c a),
        (
          ap (λ (r : Result (Unit {0}) × SyncWebSocket K H M). r.0)
              (connect_starts event forward (err error) t c a),
          ap
                (λ (r : Result (Unit {0}) × SyncWebSocket K H M).
                  (connect event forward true (ok tt) r.1).1.manager)
                (connect_starts event forward (err error) t c a)
              ∙ ap (λ (r : Result (Unit {0}) × SyncWebSocket K H M). r.1.manager)
                  (connect_starts event forward (ok tt) failed refl refl),
        ),
      )
