-- ===== src/Telemetry.antt =====
-- client_telemetry.go, and what metrics.go and http.go publish of it.
pub mod Subscriptions
pub mod Connections
pub mod Shown
pub mod Refines
pub mod Emitter
use Prim.Native.String.{compare}
use text.Mathlib.Text.{is_lt}
use courier_go.Base.{
  number, host_and_port, ltb, ◌-◌, ◌%◌, ◌^◌, ℕ, String, Bool, true, false, ◌||◌, Option, none, some,
  List, [], ◌∷◌, map, insert, lookup, length, ◌==◌, if◌then◌else◌,
}
use courier_go.Address.{TcpAddress}
use courier_go.ClientOptions.{ClientOptions}
use courier_go.Libs.{Libs}
use courier_go.Options.{CallOption}
use courier_go.Paho.{MqttClient, Broker}
use courier_go.Client.{SubscriptionMeta, InternalState, Client}
use courier_go.Client.Exec.{states}

-- What an mqtt.Client's OptionsReader tells; of the URLs of the servers it is the Host of each.
pub record OptionsReader : Type 0 where
  pub servers : List String
  pub username : String
  pub resume_subs : Bool
  pub clean_session : Bool
  pub auto_reconnect : Bool

-- MQTTClientInfo
pub record MqttClientInfo : Type 0 where
  pub addresses : List TcpAddress
  pub client_id : String
  pub username : String
  pub resume_subs : Bool
  pub clean_session : Bool
  pub auto_reconnect : Bool
  pub connected : Bool
  pub subscriptions : List String

-- infoResponse; a pool size of 0 stands for none
pub record InfoResponse : Type 0 where
  pub multi_conn_mode : Bool
  pub pool_mode : Bool
  pub pool_size : ℕ
  pub clients : Option (List MqttClientInfo)
  pub subscriptions : List (String × ℕ)

-- The int that strconv.Atoi of a port returns, whatever its error.
port_number : String → ℕ
port_number p = elim (number p) [ none ↦ 0 | some n ↦ if ltb n (2 ^ 63) then n else 2 ^ 63 - 1 ]

-- The address that transformClientInfo makes of a URL with this Host.
unfoldable pub server_address : String → TcpAddress
unfolding port_number
server_address url_host =
    let (hostname, port) = host_and_port url_host in
    record { host = hostname; port = port_number port % 2 ^ 16 }

-- transformClientInfo
unfoldable pub transform_client_info :
    Broker → (MqttClient → OptionsReader) → MqttClient → List String → MqttClientInfo
transform_client_info b reader cc topics =
    let opts = reader cc in
    record {
      addresses = map server_address opts.servers;
      client_id = cc.client_id;
      username = opts.username;
      resume_subs = opts.resume_subs;
      clean_session = opts.clean_session;
      auto_reconnect = opts.auto_reconnect;
      connected = b.is_connection_open cc;
      subscriptions = topics;
    }

-- The inner loop of readSubscriptionMeta.
unfoldable pub read_levels : String → List CallOption → List (String × ℕ) → List (String × ℕ)
read_levels topic [] subs = subs
read_levels topic (CallOption.qos q ∷ opts) subs = read_levels topic opts (insert topic q subs)
read_levels topic (CallOption.retained r ∷ opts) subs = read_levels topic opts subs

-- subs[topic] = QOSZero, unless the topic has a level
unfoldable pub default_level : String → List (String × ℕ) → List (String × ℕ)
default_level topic subs = elim (lookup topic subs) [ none ↦ insert topic 0 subs | some q ↦ subs ]

-- The outer loop of readSubscriptionMeta.
unfoldable pub read_from : List (String × SubscriptionMeta) → List (String × ℕ) → List (String × ℕ)
unfolding read_levels default_level
read_from [] subs = subs
read_from ((topic, sub) ∷ rest) subs =
    read_from rest (default_level topic (read_levels topic sub.options subs))

-- less of sort.Slice
is_before : MqttClientInfo → MqttClientInfo → Bool
is_before a b = is_lt (compare a.client_id b.client_id)

insert_info : MqttClientInfo → List MqttClientInfo → List MqttClientInfo
unfolding is_before
insert_info x [] = x ∷ []
insert_info x (y ∷ ys) =
    let rest = insert_info x ys in if is_before y x then y ∷ rest else x ∷ y ∷ ys

-- sort.Slice by ClientID
unfoldable pub sort_infos : List MqttClientInfo → List MqttClientInfo
unfolding insert_info
sort_infos [] = []
sort_infos (x ∷ xs) = insert_info x (sort_infos xs)

module _ ⦃libs : Libs⦄ where
  -- readSubscriptionMeta
  unfoldable pub read_subscription_meta : Client → List (String × ℕ)
  unfolding read_from
  read_subscription_meta c = read_from c.subscriptions []

  infos : Broker → (MqttClient → OptionsReader) → List InternalState → List MqttClientInfo
  unfolding transform_client_info
  infos b reader [] = []
  infos b reader (s ∷ ss) =
      transform_client_info b reader s.client (libs.values s.subs_called) ∷ infos b reader ss

  -- multiClientInfo: execute runs its execOptWithState on every connection, because mqttClients is
  -- not empty and the mode is one of those with several connections
  unfoldable pub multi_client_info :
      Broker → (MqttClient → OptionsReader) → Client → Option (List MqttClientInfo)
  unfolding infos sort_infos states
  multi_client_info b reader c =
      if length c.mqtt_clients == 0
      then none
      else some (sort_infos (infos b reader (states c.mqtt_clients)))

  -- singleClientInfo
  unfoldable pub single_client_info :
      Broker → (MqttClient → OptionsReader) → Client → Option (List MqttClientInfo)
  unfolding transform_client_info
  single_client_info b reader c = elim c.mqtt_client [
    | none ↦ none
    | some m ↦ some (transform_client_info b reader m [] ∷ [])
  ]

  -- clientInfo
  unfoldable pub client_info :
      Broker → (MqttClient → OptionsReader) → Client → Option (List MqttClientInfo)
  unfolding multi_client_info single_client_info
  client_info b reader c =
      if c.options.multi_connection_mode || c.options.pool_enabled
      then multi_client_info b reader c
      else single_client_info b reader c

  -- Client.infoResponse
  unfoldable pub info_response : Broker → (MqttClient → OptionsReader) → Client → InfoResponse
  unfolding client_info read_subscription_meta
  info_response b reader c = record {
    multi_conn_mode = c.options.multi_connection_mode;
    pool_mode = c.options.pool_enabled;
    pool_size = if c.options.pool_enabled then c.options.pool_size else 0;
    clients = client_info b reader c;
    subscriptions = read_subscription_meta c;
  }
