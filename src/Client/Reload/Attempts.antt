-- ===== src/Client/Reload/Attempts.antt =====
-- resumeSubscriptions and the attempts of client_resolver.go, attemptSingleConnection, runResolver and
-- Start of client.go. c.subscriber is a parameter, since its middlewares may be anything.
use courier_go.Base.{ℕ, String, Option, none, some, List, [], ◌∷◌, ◌==◌, length, if◌then◌else◌}
use courier_go.Address.{TcpAddress}
use courier_go.Errors.{sentinel, connect_timeout}
use courier_go.Libs.{Libs}
use courier_go.Paho.{MqttClient, Broker}
use courier_go.Paho.Setup.{Host}
use courier_go.Client.{SubscriptionMeta, Client}
use courier_go.Client.Exec.{returned, panicked, Executed}
use courier_go.Client.Handlers.{Subscriber, join}
use courier_go.Client.Lifecycle.{background, handle_info_emitter, run_connect}
use courier_go.Client.Reload.{
  connected, crashed, unfinished, connect_in_turn, reload_client, replace_clients,
}

module _ ⦃libs : Libs⦄ where
  -- The calls of resumeSubscriptions, one after another in the order of the map.
  unfoldable pub subscribe_each :
      Subscriber → Broker → List (String × SubscriptionMeta) → Client → List Executed
  subscribe_each sub b [] c = []
  subscribe_each sub b ((k, m) ∷ subs) c =
      let e = sub.subscribe c background b m.topic m.callback m.options in
      e ∷ subscribe_each sub b subs e.client

  unfoldable pub last_client : Client → List Executed → Client
  last_client c [] = c
  last_client c (e ∷ es) = last_client e.client es

  -- resumeSubscriptions
  unfoldable pub resume_subscriptions : Subscriber → Broker → Client → Executed
  unfolding subscribe_each last_client join
  resume_subscriptions sub b c =
      if length c.subscriptions == 0
      then record { client = c; calls = []; notified = []; outcome = returned none }
      else (let es = subscribe_each sub b c.subscriptions c in join (last_client c es) es)

  -- What an attempt leaves: what resumeSubscriptions did, and the connections that were closed;
  -- `none` while newClient has not finished.
  unfoldable pub attempt_single_connection :
      Subscriber
      → Host
      → (ℕ → Broker)
      → Broker
      → ℕ
      → Client
      → List TcpAddress
      → Option (Executed × List MqttClient)
  unfolding connect_in_turn reload_client resume_subscriptions
  attempt_single_connection sub host brokers b rounds c [] =
      let r = reload_client none c in
      some (
        record { client = r.client; calls = []; notified = []; outcome = returned none },
        r.disconnected,
      )
  attempt_single_connection sub host brokers b rounds c (a ∷ addrs) =
      elim (connect_in_turn host brokers c (a ∷ addrs) rounds 0) [
        | unfinished ↦ none
        | crashed ↦ some (record { client = c; calls = []; notified = []; outcome = panicked }, [])
        | connected m ↦
            let r = reload_client (some m) c in
            some (resume_subscriptions sub b r.client, r.disconnected)
      ]

  -- attemptMultiConnections
  unfoldable pub attempt_multi_connections :
      Subscriber → Host → Broker → Client → List TcpAddress → Executed × List MqttClient
  unfolding replace_clients resume_subscriptions
  attempt_multi_connections sub host b c addrs =
      let r = replace_clients host b c addrs in
      (resume_subscriptions sub b r.client, r.disconnected)

  -- attemptConnections
  unfoldable pub attempt_connections :
      Subscriber
      → Host
      → (ℕ → Broker)
      → Broker
      → ℕ
      → Client
      → List TcpAddress
      → Option (Executed × List MqttClient)
  unfolding attempt_multi_connections attempt_single_connection
  attempt_connections sub host brokers b rounds c addrs =
      if c.options.multi_connection_mode
      then some (attempt_multi_connections sub host b c addrs)
      else attempt_single_connection sub host brokers b rounds c addrs

  -- runResolver after its attempt: only a nil error starts the emitter
  unfoldable pub after_attempt : Executed → Executed
  unfolding handle_info_emitter
  after_attempt e = elim e.outcome [
    | panicked ↦ e
    | returned err ↦ elim err [
      | some _ ↦ e
      | none ↦ record e { client = handle_info_emitter e.client }
    ]
  ]

  -- runResolver: `first` is the first update, or `none` when the connect timeout is over before it
  unfoldable pub run_resolver :
      Subscriber
      → Host
      → (ℕ → Broker)
      → Broker
      → ℕ
      → Client
      → Option (List TcpAddress)
      → Option (Executed × List MqttClient)
  unfolding attempt_connections after_attempt
  run_resolver sub host brokers b rounds c first = elim first [
    | none ↦ some (
      record {
        client = c;
        calls = [];
        notified = [];
        outcome = returned (some (sentinel connect_timeout));
      },
      [],
    )
    | some addrs ↦ elim (attempt_connections sub host brokers b rounds c addrs) [
      | none ↦ none
      | some (e, closed) ↦ some (after_attempt e, closed)
    ]
  ]

  -- Start
  unfoldable pub start :
      Subscriber
      → Host
      → (ℕ → Broker)
      → Broker
      → ℕ
      → Client
      → Option (List TcpAddress)
      → Option (Executed × List MqttClient)
  unfolding run_resolver run_connect
  start sub host brokers b rounds c first = elim c.options.resolver [
    | some r ↦ run_resolver sub host brokers b rounds c first
    | none ↦ some (run_connect c b, [])
  ]
