-- ===== src/Multiplex/Tests.antt =====
-- The theorems about the multiplexer at concrete inputs: channels are names, messages numbers.
use jetsocket.Prelude.{
  ℕ, ◌≡◌, refl, true, false, none, some, Option, List, [], ◌∷◌, String, string_eq, ltb, ◌==◌,
  if◌then◌else◌, arith,
}
use jetsocket.Exceptions.{Result, ok, err, connection_error, value_error}
use jetsocket.Dict.{get}
use jetsocket.Multiplex.Defs.{MultiplexConfig, Subscription, Multiplex, subscribe, queue_of}
use jetsocket.Multiplex.Counts.{IsSound}
use jetsocket.Multiplex.Keeps.{Keeps}
use jetsocket.Multiplex.Calls.{Call, after, counts_agree}
use jetsocket.Multiplex.Route.{route_all, route_window}
use jetsocket.Multiplex.Retry.{subscribe_again}

-- Below 10 are the messages of "btc", below 20 those of "eth", and 99 breaks the extractor.
abbrev channel_of_number : ℕ → Result (Option String)
channel_of_number n =
    if ltb n 10
    then ok (some "btc")
    else if ltb n 20
    then ok (some "eth")
    else if n == 99
    then err value_error
    else ok none

abbrev extract : Option ℕ → Result (Option String)
extract none = ok none
extract (some n) = channel_of_number n

abbrev config : MultiplexConfig String ℕ
config = record { channel_extractor = extract; has_subscribe = true; queue_size = 2 }

abbrev calls : List (Call String ℕ)
calls =
    Call.closes
    ∷ Call.unsubscribes "btc"
    ∷ Call.receives 0
    ∷ Call.routes (some 3)
    ∷ Call.routes (some 15)
    ∷ Call.subscribes "btc" (ok tt)
    ∷ Call.connects (ok tt)
    ∷ []

counts_agree_example :
    let m = after config calls in
    IsSound m.config.queue_size m.objects m.total_subscriptions m.total_messages_routed
counts_agree_example = counts_agree config calls

abbrev subscription : String → List (Option ℕ) → Subscription String ℕ
subscription channel queue = record {
  channel = channel;
  queue = queue;
  active = true;
  messages_received = 0;
}

abbrev online : Multiplex String ℕ
online = record {
  config = config;
  objects = subscription "eth" [] ∷ subscription "btc" (some 1 ∷ []) ∷ [];
  subscriptions = ("eth", 0) ∷ ("btc", 1) ∷ [];
  total_subscriptions = 2;
  total_messages_routed = 0;
  unroutable_messages = 0;
  has_manager = true;
  connected = true;
  routing = true;
  closed = false;
}

-- 12 goes to the other subscription, 50 to none, and after 99 nothing is routed.
abbrev messages : List (Option ℕ)
messages = some 2 ∷ some 12 ∷ some 50 ∷ some 3 ∷ some 99 ∷ some 4 ∷ []

route_window_example :
    Keeps 2 (some 1 ∷ some 2 ∷ some 3 ∷ []) (queue_of (route_all messages online).objects 1)
unfolding get
route_window_example = route_window messages 1 online refl refl (λ _. omega arith)

subscribe_again_example :
    let r = subscribe "ada" (err connection_error) online in
    (r.0 ≡ err connection_error) × (subscribe "ada" (ok tt) r.1 ≡ (ok 2, r.1))
unfolding get
subscribe_again_example = subscribe_again "ada" connection_error (ok tt) online refl refl refl refl

abbrev offline : Multiplex String ℕ
offline = record online { has_manager = false; connected = false; routing = false }
