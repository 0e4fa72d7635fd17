-- ===== src/SyncClient/Queue.antt =====
-- What the user of a closed client still gets.
use jetsocket.Prelude.{
  ℕ, zero, suc, Bool, true, false, not, ◌&&◌, none, some, List, [], ◌∷◌, ◌++◌, map, append-nil, ◌≡◌,
  refl, ap, ◌∙◌, length, if_true, if_false, if_either,
}
use jetsocket.Exceptions.{connection_error, invalid_state_error}
use jetsocket.Transport.Base.{Reply, returns, raises}
use jetsocket.SyncClient.Defs.{
  Item, message, shutdown, SyncWebSocket, is_none, is_empty, with_queue, got, with_closed,
  shutdown_loop, close, get_message, recv,
}

and_false : (b : Bool) → (b && false) ≡ false
and_false true = refl
and_false false = refl

module _ {K H M : Type 0} where
  -- So many calls of `recv` without a timeout, when nothing more arrives.
  unfoldable pub recv_times : ℕ → SyncWebSocket K H M → List (Reply M)
  recv_times zero t = []
  recv_times (suc n) t =
      let r : Reply M × SyncWebSocket K H M = recv false none t in r.0 ∷ recv_times n r.1

  recv_first :
      (t : SyncWebSocket K H M) (item : Item M) (items : List (Item M))
      → t.message_queue ≡ item ∷ items
      → recv false none t ≡ got (some item) (with_queue t items) false
  unfolding recv get_message
  recv_first t item items q =
      if_false (t.closed && is_empty t.message_queue) _ _
        (ap (λ (l : List (Item M)). t.closed && is_empty l) q ∙ and_false t.closed)
      ∙ ap (λ (l : List (Item M)). get_message false none l t) q

  -- A call that takes the first entry, and the calls after it.
  recv_then :
      (n : ℕ) (t : SyncWebSocket K H M) (item : Item M) (items : List (Item M))
      → t.message_queue ≡ item ∷ items
      → recv_times (suc n) t
        ≡ (got (some item) (with_queue t items) false).0
          ∷ recv_times n (got (some item) (with_queue t items) false).1
  unfolding recv_times
  recv_then n t item items q =
      ap (λ (r : Reply M × SyncWebSocket K H M). r.0 ∷ recv_times n r.1) (recv_first t item items q)

  -- A closed client with messages and then _SHUTDOWN in its queue.
  recv_times_closed :
      (t : SyncWebSocket K H M) (messages : List M)
      → t.closed ≡ true
      → t.message_queue ≡ map message messages ++ shutdown ∷ []
      → recv_times (suc (suc (length messages))) t
        ≡ map returns messages ++ raises connection_error ∷ raises invalid_state_error ∷ []
  unfolding recv_times recv
  recv_times_closed t [] c q =
      recv_then 1 t shutdown [] q
      ∙ ap (λ (r : Reply M × SyncWebSocket K H M). raises connection_error ∷ r.0 ∷ [])
          (if_true (t.closed && true) _ _ (ap (λ (b : Bool). b && true) c))
  recv_times_closed t (m ∷ messages) c q =
      recv_then (suc (suc (length messages))) t (message m) (map message messages ++ shutdown ∷ [])
        q
      ∙ ap (λ (l : List (Reply M)). returns m ∷ l)
          (recv_times_closed (with_queue t (map message messages ++ shutdown ∷ [])) messages c refl)

  -- A client that is not closed and whose queue holds messages: after `close`, during which nothing
  -- arrives, `recv` gives all the messages, in order, then raises a connection error once, and an
  -- InvalidStateError after that.
  pub recv_times-close :
      (t : SyncWebSocket K H M) (messages : List M)
      → t.closed ≡ false
      → t.message_queue ≡ map message messages
      → recv_times (suc (suc (length messages))) (close [] t)
        ≡ map returns messages ++ raises connection_error ∷ raises invalid_state_error ∷ []
  unfolding close shutdown_loop
  recv_times-close t messages c q =
      let stopped : SyncWebSocket K H M =
        with_queue (with_closed t true) (t.message_queue ++ shutdown ∷ []) in
      ap (recv_times (suc (suc (length messages)))) (if_false t.closed _ _ c)
      ∙ if_either
          (λ (u : SyncWebSocket K H M).
            recv_times (suc (suc (length messages))) (shutdown_loop u)
            ≡ map returns messages ++ raises connection_error ∷ raises invalid_state_error ∷ [])
          (t.has_loop && not (is_none t.manager))
          (λ e.
            recv_times_closed (shutdown_loop (with_queue stopped (stopped.message_queue ++ [])))
              messages refl
              (append-nil stopped.message_queue ∙ ap (λ (l : List (Item M)). l ++ shutdown ∷ []) q))
          (λ e.
            recv_times_closed (shutdown_loop stopped) messages refl
              (ap (λ (l : List (Item M)). l ++ shutdown ∷ []) q))
