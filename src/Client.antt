-- ===== src/Client.antt =====
-- client.go: the state of a client, tokens and the client ID callback (also exec.go, context.go).
pub mod Exec
pub mod Handlers
pub mod Subscriptions
pub mod Lifecycle
pub mod Reload
pub mod Operations
pub mod Delivery
use courier_go.Base.{ℕ, String, Bool, true, false, Option, none, some, List, [], ◌∷◌, if◌then◌else◌}
use courier_go.ClientOptions.{ClientOptions}
use courier_go.Errors.{Error}
use courier_go.Libs.{Libs}
use courier_go.Options.{CallOption}
use courier_go.Paho.{MqttClient, Token, Context}

-- subscriptionMeta; a MessageHandler is told apart by a number
pub record SubscriptionMeta : Type 0 where
  pub topic : String
  pub options : List CallOption
  pub callback : ℕ

-- waitForToken
wait_for_token : Context → Token → Error → Option Error
wait_for_token ctx t timeout_err =
    if ctx.has_deadline
    then (if t.done_first then t.error else some ctx.err)
    else (if t.in_time then none else some timeout_err)

-- handleToken
unfoldable pub handle_token : Context → Token → Error → Option Error
unfolding wait_for_token
handle_token ctx t timeout_err = elim (wait_for_token ctx t timeout_err) [
  | some e ↦ some e
  | none ↦ t.error
]

-- invokeClientIDCallback: the IDs that the callback of the context is given
unfoldable pub invoke_client_id_callback : Context → String → List String
invoke_client_id_callback ctx id = if ctx.client_id_callback then id ∷ [] else []

module _ ⦃libs : Libs⦄ where
  -- internalState
  pub record InternalState : Type 0 where
    pub subs_called : libs.StringSet
    pub client : MqttClient

  -- Client without its handler chains. The code shares each *internalState between mqttClients and
  -- orderedClients; of the latter it reads the `client` only, which never changes.
  pub record Client : Type 0 where
    pub options : ClientOptions
    pub subscriptions : List (String × SubscriptionMeta)
    pub mqtt_client : Option MqttClient
    pub mqtt_clients : List (String × InternalState)
    pub ordered_clients : List MqttClient
    pub rr_counter : ℕ
    pub multi_conn_revision : ℕ
    pub info_emitter_running : Bool
