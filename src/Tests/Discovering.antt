-- ===== src/Tests/Discovering.antt =====
-- consul/resolver.go on two addresses of one service.
use courier_go.Base.{
  true, false, none, some, [], ◌∷◌, ◌++◌, pos, ◌≡◌, ◌⊎◌, ◌<◌, ◌+◌, ◌↔◌, refl, arith, if◌then◌else◌,
}
use courier_go.Address.{TcpAddress, address_eq}
use courier_go.Address.Equality.{are_addresses_equal}
use courier_go.Address.Equality.Counting.{SameAddresses, are_addresses_equal_iff}
use courier_go.Consul.{Resolver, Instruments, Config, Made, made, refused, new_resolver}
use courier_go.Consul.Discovery.{
  take_pending, HealthAnswer, health, convert_to_tcp_addresses, store_answer,
  schedule_address_update, is_new_name, set_service_name,
}
use courier_go.Consul.Discovery.Debounce.{schedule_all, take_pending-schedule_all}
use courier_go.Consul.Steps.{
  Pick, System, query, answer, schedule, fire, go_on, take, Reach, next, initial,
}
use courier_go.Consul.Steps.Invariant.{IsFresh, Reach-awaited}
use courier_go.Consul.Steps.Races.{
  found_addresses_outlive_rename, stale_list_stays, stop_races_timer,
}

abbrev one : TcpAddress
one = record { host = "a"; port = 1883 }

abbrev two : TcpAddress
two = record { host = "b"; port = 1883 }

are_addresses_equal_iff_example :
    (are_addresses_equal (one ∷ two ∷ []) (two ∷ one ∷ []) ≡ true)
    ↔ SameAddresses (one ∷ two ∷ []) (two ∷ one ∷ [])
are_addresses_equal_iff_example = are_addresses_equal_iff (one ∷ two ∷ []) (two ∷ one ∷ [])

abbrev fresh : Resolver
fresh = record {
  service_name = "mqtt";
  healthy_only = true;
  wait_time = pos 0;
  kv_key = "k";
  last_index = 0;
  last_addresses = [];
  debounce_duration = pos 5;
  armed = false;
  pending_addresses = none;
  last_instance_count = 0;
  metrics = none;
}

fresh-IsFresh : IsFresh fresh
fresh-IsFresh = (refl, refl)

take_pending-schedule_all_example :
    (take_pending (schedule_all fresh (((one ∷ []) ∷ []) ++ ((two ∷ []) ∷ [])))).1
    ≡ (if are_addresses_equal [] (two ∷ []) then none else some (two ∷ []))
take_pending-schedule_all_example =
    take_pending-schedule_all fresh ((one ∷ []) ∷ []) (two ∷ []) refl

-- A discovery of one address has been answered, and its update is waiting for the timer.
abbrev asked : System
asked = record (initial fresh) { queries = "mqtt" ∷ [] }

asked-Reach : Reach (initial fresh) asked
asked-Reach = next Reach.here (query (omega arith) refl)

abbrev found : System
found = record asked {
  resolver =
      (store_answer "mqtt"
        (health 7 ((record { service_address = "a"; node_address = ""; port = pos 1883 }) ∷ []))
        fresh).0;
  queries = [];
  found = (one ∷ []) ∷ [];
}

found-Reach : Reach (initial fresh) found
unfolding store_answer convert_to_tcp_addresses
found-Reach = next asked-Reach (
    answer "mqtt" []
      (health 7 ((record { service_address = "a"; node_address = ""; port = pos 1883 }) ∷ []))
      Pick.here)

abbrev waiting : System
waiting = record found {
  resolver = (schedule_address_update (one ∷ []) found.resolver).0;
  found = [];
}

waiting-Reach : Reach (initial fresh) waiting
unfolding store_answer
waiting-Reach = next found-Reach (schedule (one ∷ []) [] Pick.here refl)

-- The timer has fired, and its function has put the addresses into the buffer.
abbrev fired : System
fired = record waiting { resolver = record (waiting.resolver) { armed = false }; fired = 1 }

fired-Reach : Reach (initial fresh) fired
unfolding store_answer schedule_address_update are_addresses_equal
fired-Reach = next waiting-Reach (fire refl)

abbrev published : System
published = record fired {
  resolver = (take_pending fired.resolver).0;
  fired = 0;
  channel = (one ∷ []) ∷ [];
  taken = (one ∷ []) ∷ [];
}

abbrev accepting : Instruments
accepting = record { instrument = λ name. none; callback = none }

abbrev settings : Config
settings = record {
  consul_address = "localhost:8500";
  healthy_only = true;
  kv_key = "k";
  wait_time = pos 0;
  otel = true;
  debounce_duration = pos 0;
}

abbrev resolver_of : Made → Resolver
resolver_of (made r) = r
resolver_of (refused e) = fresh

abbrev new_one : Resolver
new_one = resolver_of (new_resolver none accepting settings)

abbrev named : System
named = record (initial new_one) { resolver = set_service_name "mqtt" new_one }

abbrev asking : System
asking = record named { queries = "mqtt" ∷ [] }

Reach-awaited_example :
    ((waiting.resolver.armed ≡ true) ⊎ (0 < waiting.fired + waiting.past_check))
    × (are_addresses_equal waiting.resolver.last_addresses (one ∷ []) ≡ false)
unfolding store_answer schedule_address_update are_addresses_equal
Reach-awaited_example = Reach-awaited (one ∷ []) fresh-IsFresh waiting-Reach refl refl

found_addresses_outlive_rename_example :
    (t : System) × Reach found t
    × (t.resolver.service_name ≡ "other")
    × (t.resolver.pending_addresses ≡ some (one ∷ []))
    × (t.resolver.armed ≡ true)
unfolding store_answer are_addresses_equal is_new_name
found_addresses_outlive_rename_example =
    found_addresses_outlive_rename found (one ∷ []) [] "other" Pick.here refl refl refl

stop_races_timer_example : (t : System) × Reach fired t × (t.panicked ≡ true)
unfolding store_answer schedule_address_update are_addresses_equal
stop_races_timer_example = stop_races_timer fired 0 (one ∷ []) refl refl refl refl refl refl

-- The first list waits in its send, and a timer's function is about to take the second one.
abbrev sent_late : System
sent_late = record fired {
  resolver = (take_pending fired.resolver).0;
  fired = 0;
  sending = (one ∷ []) ∷ [];
  taken = (one ∷ []) ∷ [];
}

abbrev second_answer : HealthAnswer
second_answer =
    health 8 ((record { service_address = "b"; node_address = ""; port = pos 1883 }) ∷ [])

abbrev overtaken : System
overtaken = record sent_late {
  resolver =
      record ((schedule_address_update (two ∷ [])
        (store_answer "mqtt" second_answer sent_late.resolver).0).0) { armed = false };
  past_check = 1;
}

overtaken-Reach : Reach (initial fresh) overtaken
unfolding store_answer schedule_address_update are_addresses_equal take_pending
    convert_to_tcp_addresses address_eq
overtaken-Reach =
    next
      (next
        (next
          (next
            (next (next (next fired-Reach (go_on 0 refl refl)) (take 0 refl))
              (query (omega arith) refl))
            (answer "mqtt" [] second_answer Pick.here))
          (schedule (two ∷ []) [] Pick.here refl))
        (fire refl))
      (go_on 0 refl refl)

stale_list_stays_example :
    (t : System) × Reach overtaken t
    × (t.received ≡ (one ∷ []) ∷ (two ∷ []) ∷ [])
    × (t.channel ≡ [])
    × (t.sending ≡ [])
    × (t.resolver.last_addresses ≡ two ∷ [])
    × ((schedule_address_update (two ∷ []) t.resolver).0.armed ≡ false)
    × ((schedule_address_update (two ∷ []) t.resolver).0.pending_addresses ≡ none)
unfolding store_answer schedule_address_update are_addresses_equal take_pending address_eq
stale_list_stays_example =
    stale_list_stays overtaken 0 (one ∷ []) (two ∷ []) refl refl refl refl refl
