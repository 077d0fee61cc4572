-- ===== src/Client/Handlers/Lost.antt =====
-- connectionLostHandler and removeStoredSubsCalled of client.go: a connection that paho has lost.
use courier_go.Base.{
  ℕ, String, true, not, ◌&&◌, ◌==◌, List, [], ◌∷◌, ◌≡◌, ◌∙◌, refl, arith, if◌then◌else◌,
}
use courier_go.Libs.{Libs}
use courier_go.Options.{CallOption}
use courier_go.Paho.{MqttClient, Context, Broker}
use courier_go.Client.{InternalState, Client}
use courier_go.Client.Exec.{states}
use courier_go.Client.Exec.Laws.{IsMulti}
use courier_go.Client.Handlers.{subscribe_handler}
use courier_go.Client.Handlers.Shared.{subscribe_handler_shared}
use courier_go.Client.Handlers.Lacking.{lacking}

module _ ⦃libs : Libs⦄ where
  -- The body of the loop of removeStoredSubsCalled
  unfoldable pub forget_subs : MqttClient → InternalState → InternalState
  forget_subs cc s =
      if s.client.ref == cc.ref
      then record s { subs_called = libs.delete s.subs_called (libs.values s.subs_called) }
      else s

  unfoldable pub forget_in :
      MqttClient → List (String × InternalState) → List (String × InternalState)
  unfolding forget_subs
  forget_in cc [] = []
  forget_in cc ((k, s) ∷ m) = (k, forget_subs cc s) ∷ forget_in cc m

  -- removeStoredSubsCalled, which connectionLostHandler calls before the user's handler
  unfoldable pub remove_stored_subs_called : MqttClient → Client → Client
  unfolding forget_in
  remove_stored_subs_called cc c = record c { mqtt_clients = forget_in cc c.mqtt_clients }

  -- The connections that are lost or not subscribed to a topic.
  abbrev pub lost_or_lacking : MqttClient → String → List InternalState → List MqttClient
  lost_or_lacking cc topic [] = []
  lost_or_lacking cc topic (s ∷ ss) =
      let rest = lost_or_lacking cc topic ss in
      if libs.has s.subs_called topic && not (s.client.ref == cc.ref) then rest else s.client ∷ rest

  lacking-forget_in :
      (cc : MqttClient) (topic : String) (m : List (String × InternalState))
      → lacking topic (states (forget_in cc m)) ≡ lost_or_lacking cc topic (states m)
  unfolding forget_in forget_subs states
  lacking-forget_in cc topic [] = refl
  lacking-forget_in cc topic ((k, s) ∷ m) = ground (
    arith,
    lacking-forget_in cc topic m,
    libs.has-delete s.subs_called (libs.values s.subs_called) topic,
    libs.contains-values s.subs_called topic,
  )

  -- After the connection is lost, a client with several connections subscribes to a shared topic
  -- again: it calls paho on exactly the lost connection, whatever was subscribed on it, and on those
  -- that were not subscribed to the topic.
  pub subscribe_handler_lost :
      (cc : MqttClient) (c : Client) (ctx : Context) (b : Broker) (topic : String) (callback : ℕ)
      (opts : List CallOption)
      → IsMulti (remove_stored_subs_called cc c)
      → c.options.shared_subscription_predicate topic ≡ true
      → (subscribe_handler (remove_stored_subs_called cc c) ctx b topic callback opts).calls
        ≡ lost_or_lacking cc topic (states c.mqtt_clients)
  unfolding remove_stored_subs_called
  subscribe_handler_lost cc c ctx b topic callback opts multi shared =
      let lost = remove_stored_subs_called cc c in
      (subscribe_handler_shared lost ctx b topic callback opts multi shared).calls
      ∙ lacking-forget_in cc topic c.mqtt_clients
