-- ===== src/Client/Operations.antt =====
-- The operations of a client, one after another: the calls of its user, the lost connections of
-- paho, and the updates of a resolver. The handlers are the client's own.
pub mod Attempted
pub mod Order
pub mod Silent
pub mod Registry
pub mod Watching
pub mod Latest
use courier_go.Base.{ℕ, String, Option, none, some, List, [], ◌∷◌}
use courier_go.Address.{TcpAddress}
use courier_go.Libs.{Libs}
use courier_go.Options.{CallOption}
use courier_go.Paho.{MqttClient, Context, Broker}
use courier_go.Paho.Setup.{Host}
use courier_go.Client.{Client}
use courier_go.Client.Exec.{Executed}
use courier_go.Client.Handlers.{publish_handler, subscriber_funcs, unsubscriber_handler}
use courier_go.Client.Handlers.Lost.{remove_stored_subs_called}
use courier_go.Client.Lifecycle.{run_connect, stop}
use courier_go.Client.Reload.Attempts.{attempt_connections}
use courier_go.Client.Subscriptions
use courier_go.Client.Subscriptions.{subscribe, subscribe_multiple, unsubscribe}

-- An operation, with what the environment answers during it.
pub data Operation : Type 0 where
  publishing : Context → Broker → String → ℕ → List CallOption → Operation
  subscribing : Context → Broker → String → ℕ → List CallOption → Operation
  subscribing_multiple : Context → Broker → List (String × ℕ) → ℕ → Operation
  unsubscribing : Context → Broker → List String → Operation
  starting : Broker → Operation
  stopping : Broker → Operation
  losing : MqttClient → Operation
  updating : Host → (ℕ → Broker) → Broker → ℕ → List TcpAddress → Operation

module _ ⦃libs : Libs⦄ where
  -- The client after an attempt; one that is still trying addresses has changed nothing.
  unfoldable pub attempted : Client → Option (Executed × List MqttClient) → Client
  attempted c o = elim o [ none ↦ c | some (e, closed) ↦ e.client ]

  -- The client after an operation.
  unfoldable pub operate : Operation → Client → Client
  operate (publishing ctx b topic message opts) c =
      (publish_handler c ctx b topic message opts).client
  operate (subscribing ctx b topic callback opts) c =
      (subscribe subscriber_funcs c ctx b topic callback opts).client
  operate (subscribing_multiple ctx b topics callback) c =
      (subscribe_multiple subscriber_funcs c ctx b topics callback).client
  operate (unsubscribing ctx b topics) c = (unsubscribe unsubscriber_handler c ctx b topics).client
  operate (starting b) c = (run_connect c b).client
  operate (stopping b) c = (stop c b).client
  operate (losing cc) c = remove_stored_subs_called cc c
  operate (updating host brokers b rounds addrs) c =
      attempted c (attempt_connections subscriber_funcs host brokers b rounds c addrs)

  unfoldable pub operate_all : List Operation → Client → Client
  unfolding operate
  operate_all [] c = c
  operate_all (o ∷ os) c = operate_all os (operate o c)
