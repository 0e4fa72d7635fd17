-- ===== src/Manager/Timers.antt =====
-- What jetsocket/manager.py does for its timers: the heartbeat's pings and its timeout, and the
-- maximal age of a connection.
use jetsocket.Prelude.{true, false, not, ◌||◌, List, if◌then◌else◌}
use jetsocket.Exceptions.{timeout_error, Result, ok, err}
use jetsocket.State.{connected, same_state, can_send}
use jetsocket.Float.{Float}
use jetsocket.Events.Defs.{Event}
use jetsocket.Manager.Defs.{returned, raised, Manager, Run, Now, emit}
use jetsocket.Manager.Connect.{Pause, Try, handle_disconnect}

module _ {f : Float} {D T S : Type 0} where
  unfoldable pub pinged : Result (Unit {0}) → Manager f D T S → Run f D T S
  pinged (ok _) m = (returned, emit Event.ping m)
  pinged (err e) m = (raised e, m)

  -- `_send_ping`, with what the transport makes of the ping.
  unfoldable pub send_ping : Result (Unit {0}) → Manager f D T S → Run f D T S
  send_ping written m =
      if not m.transport || not (can_send m.state) then (returned, m) else pinged written m

  -- `_handle_heartbeat_timeout`
  unfoldable pub handle_heartbeat_timeout :
      Now f D → Pause f → List (Try f D T) → Manager f D T S → Run f D T S
  handle_heartbeat_timeout now p ts m =
      handle_disconnect 1006 false now p ts (emit (Event.error timeout_error true) m)

  -- `_connection_age_timer`
  unfoldable pub connection_age_timer :
      Now f D → Pause f → List (Try f D T) → Manager f D T S → Run f D T S
  connection_age_timer now p ts m =
      if m.has_max_age
      then if same_state m.state connected
        then handle_disconnect 1000 true now p ts (emit (Event.closing 1000) m)
        else (returned, m)
      else (returned, m)
