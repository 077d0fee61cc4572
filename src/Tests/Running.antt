-- ===== src/Tests/Running.antt =====
-- Run, and the loop over a resolver's updates.
use courier_go.Base.{true, none, some, List, [], ◌∷◌, ◌≡◌, refl}
use courier_go.ClientOptions.Apply.{default_client_options}
use courier_go.Errors.{sentinel, client_not_initialized}
use courier_go.Paho.{Broker}
use courier_go.Client.{Client}
use courier_go.Client.Exec.{returned, execute, fails, exec_all}
use courier_go.Client.Handlers.{subscriber_funcs}
use courier_go.Address.{TcpAddress}
use courier_go.Client.Operations.Watching.{
  ResolverEvent, stopped, updated, watch_address_updates, watch_closed,
}
use courier_go.Start.Running.{StartEnvironment}
use courier_go.Tests.Samples.{list_libs, good_token, flaky, host, context, left, pair}

-- A broker on which every connect succeeds.
abbrev calm : Broker
calm = record flaky { connect = λ m. good_token }

abbrev environment : StartEnvironment
environment = record { brokers = λ i. calm; broker = calm; rounds = 1; first_update = none }

-- A client with its single connection.
abbrev single : Client
single = record pair {
  options = default_client_options;
  mqtt_client = some left;
  mqtt_clients = [];
  ordered_clients = [];
}

watch_closed_example :
    (watch_address_updates subscriber_funcs host
        (updated (λ i. calm) calm 1 [] ∷ stopped ∷ [])
        single
      ≡ record (watch_address_updates subscriber_funcs host
          (stopped ∷ [])
          (record single { mqtt_client = none })) {
            disconnected =
                left
                ∷ (watch_address_updates subscriber_funcs host
                    (stopped ∷ [])
                    (record single { mqtt_client = none })).disconnected;
          })
    × (execute (record single { mqtt_client = none }) context calm (λ m. none) exec_all
        ≡ fails
            (record single { mqtt_client = none })
            (returned (some (sentinel client_not_initialized))))
unfolding default_client_options
watch_closed_example =
    watch_closed host (λ i. calm) calm 1 (stopped ∷ []) single left context calm (λ m. none)
      exec_all refl refl refl

abbrev first : ResolverEvent
first = updated (λ i. calm) calm 1 (record { host = "h"; port = 1883 } ∷ [])

abbrev several : Client
several = record pair { options = record (pair.options) { multi_connection_mode = true } }

abbrev moved : List TcpAddress
moved = record { host = "i"; port = 1883 } ∷ record { host = "j"; port = 1883 } ∷ []
