-- ===== src/Tests/Connections.antt =====
-- exec.go, the handlers and the life of a client, on two connections.
use courier_go.Base.{true, none, some, List, [], ◌∷◌, ◌≡◌, refl, arith, ◌↔◌}
use courier_go.Errors.{sentinel, client_not_initialized}
use courier_go.Options.{qos}
use courier_go.Client.Exec.{Call, returned, exec_all, execute, states, fails}
use courier_go.Client.Exec.Laws.{IsMulti, connections, everywhere, execute-exec_all}
use courier_go.Client.Exec.RoundRobin.{Request, run_requests, run_requests_fair, one_call}
use courier_go.Client.Handlers.{subscribe_handler, unsubscriber_handler, publish_handler}
use courier_go.Client.Handlers.Lost.{remove_stored_subs_called, subscribe_handler_lost}
use courier_go.Client.Handlers.Publish.{publish_call, publish_handler_encoded}
use courier_go.Client.Handlers.Shared.{
  SubscribesLacking, subscribe_call, subscribe_handler_shared, Unsubscribes, unsubscribe_call,
  unsubscriber_handler_all,
}
use courier_go.Client.Lifecycle.{cleared, stop, is_connected}
use courier_go.Client.Lifecycle.Stopped.{stop_once, HasOpen, is_connected_iff}
use courier_go.Tests.Samples.{list_libs, flaky, context, left, right, pair}

pair-IsMulti : IsMulti pair
pair-IsMulti = (refl, refl)

abbrev ping : Call
ping m = none

execute-exec_all_example : execute pair context flaky ping exec_all ≡ everywhere pair ping
execute-exec_all_example = execute-exec_all pair context flaky ping pair-IsMulti

abbrev requests : List Request
requests = (context, flaky, ping) ∷ (context, flaky, ping) ∷ []

run_requests_fair_example : run_requests pair requests ≡ right ∷ left ∷ []
run_requests_fair_example =
    run_requests_fair pair requests pair-IsMulti (omega arith) (omega arith) refl

-- The connection that lacks the topic is called, fails, and lacks it afterwards.
subscribe_handler_shared_example :
    SubscribesLacking pair
      (subscribe_call context flaky "$share/a" [])
      "$share/a"
      (subscribe_handler pair context flaky "$share/a" 3 [])
subscribe_handler_shared_example =
    subscribe_handler_shared pair context flaky "$share/a" 3 [] pair-IsMulti refl

unsubscriber_handler_all_example :
    Unsubscribes pair
      (unsubscribe_call context flaky ("$share/a" ∷ []))
      ("$share/a" ∷ [])
      (unsubscriber_handler pair context flaky ("$share/a" ∷ []))
unsubscriber_handler_all_example =
    unsubscriber_handler_all pair context flaky ("$share/a" ∷ []) pair-IsMulti

publish_handler_encoded_example :
    publish_handler pair context flaky "t" 9 (qos 1 ∷ [])
    ≡ one_call pair context (publish_call context flaky "t" (qos 1 ∷ []) (9 ∷ [])) right
publish_handler_encoded_example =
    publish_handler_encoded pair context flaky "t" 9 (qos 1 ∷ []) (9 ∷ []) right refl pair-IsMulti
      (omega arith) refl

stop_once_example :
    (stop pair flaky ≡ record {
      client = cleared pair;
      calls = connections pair;
      notified = [];
      outcome = returned none;
    })
    × (execute (cleared pair) context flaky ping exec_all
        ≡ fails (cleared pair) (returned (some (sentinel client_not_initialized))))
    × ((stop (cleared pair) flaky).outcome ≡ returned (some (sentinel client_not_initialized)))
stop_once_example = stop_once pair flaky flaky context ping exec_all pair-IsMulti

is_connected_iff_example : (is_connected pair flaky ≡ true) ↔ HasOpen flaky (connections pair)
is_connected_iff_example = is_connected_iff pair flaky pair-IsMulti

lost-IsMulti : IsMulti (remove_stored_subs_called left pair)
unfolding remove_stored_subs_called
lost-IsMulti = (refl, refl)

subscribe_handler_lost_example :
    (subscribe_handler (remove_stored_subs_called left pair) context flaky "$share/a" 3 []).calls
    ≡ left ∷ right ∷ []
unfolding states
subscribe_handler_lost_example =
    subscribe_handler_lost left pair context flaky "$share/a" 3 [] lost-IsMulti refl
