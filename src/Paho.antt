-- ===== src/Paho.antt =====
-- The boundary with github.com/gojek/paho.mqtt.golang, and toClientOptions of client.go.
--
-- An mqtt.Client is known by its identity and by what clientIDMapper reads from it. What paho, the
-- network and the random source answer during one operation of the client is a `Broker`; another
-- operation may meet another one.
pub mod Setup
use courier_go.Base.{ℕ, ℤ, String, Bool, Option, List}
use courier_go.ClientOptions.{LogLevel, Encoder}
use courier_go.Errors.{Error}

-- An mqtt.Client that is not nil: its identity, and clientIDMapper of it.
pub record MqttClient : Type 0 where
  pub ref : ℕ
  pub client_id : String

-- An mqtt.Token: whether `select` takes t.Done() rather than ctx.Done(), whether WaitTimeout is
-- true, and t.Error().
pub record Token : Type 0 where
  pub done_first : Bool
  pub in_time : Bool
  pub error : Option Error

-- The arguments of the setters that toClientOptions calls; a setter that is not called is `none`.
pub record Settings : Type 0 where
  pub client_id : String
  pub username : Option String
  pub password : Option String
  pub credentials_provider : Option ℕ
  pub connect_retry_interval : Option ℤ
  pub broker : String
  pub resume_subs : Bool
  pub tls_config : Option ℕ
  pub auto_reconnect : Bool
  pub clean_session : Bool
  pub order_matters : Bool
  pub keep_alive : ℤ
  pub connect_timeout : ℤ
  pub max_reconnect_interval : ℤ
  pub write_timeout : ℤ
  pub log_level : LogLevel
  pub ack_timeout : ℤ

-- What an Encoder makes of a message: the bytes in the buffer, or its error.
pub data Encoded : Type 0 where
  encoded : List ℕ → Encoded
  failed : Error → Encoded

-- `encode` is newEncoder(ctx, &buf).Encode(message), with a message told apart by a number; `intn n`
-- is p.Intn(n).
pub record Broker : Type 0 where
  pub new_client : Settings → MqttClient
  pub connect : MqttClient → Token
  pub publish : MqttClient → String → ℕ → Bool → List ℕ → Token
  pub subscribe : MqttClient → String → ℕ → Token
  pub subscribe_multiple : MqttClient → List (String × ℕ) → Token
  pub unsubscribe : MqttClient → List String → Token
  pub is_connection_open : MqttClient → Bool
  pub encode : Encoder → ℕ → Encoded
  pub intn : ℕ → ℕ

-- A context.Context: whether it has a deadline, ctx.Err() once it is done, and whether it carries a
-- ClientIDCallback.
pub record Context : Type 0 where
  pub has_deadline : Bool
  pub err : Error
  pub client_id_callback : Bool
