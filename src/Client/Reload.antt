-- ===== src/Client/Reload.antt =====
-- client_resolver.go: newClient, multipleClients, and the reloads of a client's connections.
pub mod Connect
pub mod PerAddress
pub mod Attempts
pub mod Replace
pub mod Resume
pub mod Single
pub mod Starting
use courier_go.Base.{
  ℕ, zero, suc, ◌+◌, ◌%◌, ◌^◌, String, Bool, true, false, ◌&&◌, ◌||◌, Option, none, some, List, [],
  ◌∷◌, ◌++◌, ◌==◌, map, length, get_elem?, concat, decimal, insert, if◌then◌else◌,
}
use courier_go.Address.{TcpAddress, address_string}
use courier_go.ClientOptions.{ClientOptions}
use courier_go.Errors.{Error, sentinel, connect_timeout}
use courier_go.Libs.{Libs}
use courier_go.Paho.{MqttClient, Token, Context, Broker}
use courier_go.Paho.Setup.{Host, to_client_options}
use courier_go.Client.{SubscriptionMeta, InternalState, Client}
use courier_go.Client.Exec.{Outcome, returned, panicked, Executed, nth, states}
use courier_go.Client.Handlers.{Subscriber, join}
use courier_go.Client.Lifecycle.{background, any_open, handle_info_emitter, run_connect}

-- Connect returned in time and without an error.
unfoldable pub is_good : Token → Bool
is_good t = elim t.error [ none ↦ t.in_time | some e ↦ false ]

-- How newClient ends: with a client, by a panic (an address list of length 0), or not within the
-- rounds that it was given.
pub data Connecting : Type 0 where
  connected : MqttClient → Connecting
  crashed unfinished : Connecting

module _ ⦃libs : Libs⦄ where
  -- opts := *c.options with another broker address
  abbrev pub at_address : Client → TcpAddress → ClientOptions
  at_address c a = record (c.options) { broker_address = address_string a }

  -- The client that one round of newClient creates.
  unfoldable pub single_client : Host → Broker → Client → TcpAddress → MqttClient
  single_client host b c a = b.new_client (to_client_options host (at_address c a) "")

  -- newClient, `rounds` rounds from an attempt on. Round i meets the broker `brokers i`.
  unfoldable pub connect_in_turn :
      Host → (ℕ → Broker) → Client → List TcpAddress → ℕ → ℕ → Connecting
  unfolding nth is_good single_client
  connect_in_turn host brokers c addrs zero attempt = unfinished
  connect_in_turn host brokers c addrs (suc rounds) attempt =
      let rest = connect_in_turn host brokers c addrs rounds (attempt + 1) in
      let i = if length addrs == 0 then none else some (attempt % length addrs) in
      elim (nth addrs i) [
        | none ↦ crashed
        | some a ↦
            let m = single_client host (brokers attempt) c a in
            if is_good ((brokers attempt).connect m) then connected m else rest
      ]

  -- A client and the connections that Disconnect was called on.
  pub record Reloaded : Type 0 where
    pub client : Client
    pub disconnected : List MqttClient

  -- reloadClient
  unfoldable pub reload_client : Option MqttClient → Client → Reloaded
  reload_client cc c = record {
    client = record c { mqtt_client = cc };
    disconnected = elim c.mqtt_client [ none ↦ [] | some old ↦ old ∷ [] ];
  }

  -- The clients of multipleClients by their keys, from an index on.
  unfoldable pub dial_from :
      Host
      → Broker
      → Client
      → ℕ
      → List TcpAddress
      → List (String × MqttClient)
      → List (String × MqttClient)
  unfolding decimal
  dial_from host b c i [] clients = clients
  dial_from host b c i (a ∷ addrs) clients =
      let revision = (c.multi_conn_revision + 1) % 2 ^ 64 in
      let suffix = concat (concat "-" (decimal i)) (concat "-" (decimal revision)) in
      let m = b.new_client (to_client_options host (at_address c a) suffix) in
      let key = concat (address_string a) (concat "-" (decimal i)) in
      dial_from host b c (i + 1) addrs (insert key m clients)

  unfoldable pub values {ℓ} : {V : Type ℓ} → List (String × V) → List V
  values [] = []
  values ((k, v) ∷ m) = v ∷ values m

  -- multipleClients: the clients that it returns, the revision, and the clients that it disconnects
  pub record Dialled : Type 0 where
    pub clients : List (String × MqttClient)
    pub revision : ℕ
    pub disconnected : List MqttClient

  unfoldable pub multiple_clients : Host → Broker → Client → List TcpAddress → Dialled
  unfolding dial_from any_open values
  multiple_clients host b c addrs =
      let res = dial_from host b c 0 addrs [] in
      if any_open b (values res)
      then record {
        clients = res;
        revision = (c.multi_conn_revision + 1) % 2 ^ 64;
        disconnected = [];
      }
      else record { clients = []; revision = c.multi_conn_revision; disconnected = values res }

  unfoldable pub new_states : List (String × MqttClient) → List (String × InternalState)
  new_states [] = []
  new_states ((k, m) ∷ clients) =
      (k, record { subs_called = libs.new_set; client = m }) ∷ new_states clients

  -- reloadClients: both collections are built in the iteration order of the map
  unfoldable pub reload_clients : List (String × MqttClient) → Client → Reloaded
  unfolding states new_states values
  reload_clients clients c =
      if length clients == 0 then record { client = c; disconnected = [] } else record {
        client = record c { mqtt_clients = new_states clients; ordered_clients = values clients };
        disconnected = map (λ s. s.client) (states c.mqtt_clients);
      }

  -- The locked part of attemptMultiConnections
  unfoldable pub replace_clients : Host → Broker → Client → List TcpAddress → Reloaded
  unfolding multiple_clients reload_clients
  replace_clients host b c addrs =
      let d = multiple_clients host b c addrs in
      let r = reload_clients d.clients (record c { multi_conn_revision = d.revision }) in
      record r { disconnected = d.disconnected ++ r.disconnected }
