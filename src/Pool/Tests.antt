-- ===== src/Pool/Tests.antt =====
-- The theorems about the pool at concrete inputs: URIs are names.
use jetsocket.Prelude.{◌≡◌, refl, true, false, none, some, List, [], ◌∷◌, String, string_eq}
use jetsocket.Exceptions.{connection_error}
use jetsocket.State.{connected, failed}
use jetsocket.Dict.{get}
use jetsocket.Pool.Defs.{
  Pool, connects, fails, cancelled_at, connect, acquired, object_at, get_idle_connection, acquire,
  dispose, release,
}
use jetsocket.Pool.Permits.{Call}
use jetsocket.Pool.Idle.{is_cut, sweep_cuts_user, idle_stays_open}

-- The last call first: of four attempts to acquire one cannot connect and one is cancelled, and a
-- connection fails.
abbrev calls : List (Call String)
calls =
    Call.closes
    ∷ Call.releases 0
    ∷ Call.changes 0 failed
    ∷ Call.acquires "a" (cancelled_at connect)
    ∷ Call.releases 0
    ∷ Call.acquires "a" (fails connection_error)
    ∷ Call.sweeps 1
    ∷ Call.releases 1
    ∷ Call.acquires "b" (connects connected)
    ∷ Call.acquires "a" (connects connected)
    ∷ []

abbrev pool : Pool String
pool = record {
  max_connections = 1;
  objects = record { uri = "a"; state = connected; in_use = false } ∷ [];
  connections = ("a", 0 ∷ []) ∷ [];
  connection_count = 1;
  permits = 1;
  closed = false;
}

pool_idle : get_idle_connection "a" pool ≡ some 0
unfolding get_idle_connection get
pool_idle = refl

sweep_cuts_user_example :
    let r = acquire "a" (connects connected) pool in
    (r.0 ≡ acquired 0) × (is_cut (object_at (dispose 0 r.1).objects 0) ≡ true)
sweep_cuts_user_example =
    sweep_cuts_user "a" (connects connected) 0 pool refl refl refl pool_idle refl

pool_without : get_idle_connection "b" pool ≡ none
unfolding get_idle_connection get
pool_without = refl

idle_stays_open_example :
    let p = release 1 (acquire "b" (connects connected) pool).1 in
    (p.permits ≡ 1)
    × (object_at p.objects 1 ≡ some (record { uri = "b"; state = connected; in_use = false }))
    × (get p.connections "b" ≡ some (1 ∷ []))
unfolding get
idle_stays_open_example = idle_stays_open "b" pool refl refl pool_without
