-- ===== src/ClientOptions.antt =====
-- client_options.go, log.go, client_credentials.go and the option types of encoder.go, decoder.go,
-- metrics.go and client_resolver.go: the settings of a client.
--
-- Handlers, loggers, stores, resolvers, TLS configurations and codecs are values of the
-- environment, told apart by a number; a nil one is `none`. Durations are in nanoseconds.
pub mod Apply
pub mod Pool
pub mod Levels
use courier_go.Base.{ℕ, ℤ, pos, String, Bool, true, false, Option, none, some, ◌*◌}

-- mqtt.LogLevel, and LogLevel, which has the same four values.
pub data LogLevel : Type 0 where
  default debug warn error : LogLevel

pub data Encoder : Type 0 where
  json : Encoder
  custom : ℕ → Encoder

pub data Decoder : Type 0 where
  json base64_json : Decoder
  custom : ℕ → Decoder

pub record ConnectRetryPolicy : Type 0 where
  pub enabled : Bool
  pub interval : ℤ

pub record StartOptions : Type 0 where
  pub on_retry : Option ℕ
  pub max_interval : ℤ

pub record EmitterConfig : Type 0 where
  pub interval : ℤ
  pub emitter : Option ℕ

pub record ClientOptions : Type 0 where
  pub username : String
  pub client_id : String
  pub password : String
  pub broker_address : String
  pub resolver : Option ℕ
  pub credential_fetcher : Option ℕ
  pub tls_config : Option ℕ
  pub auto_reconnect : Bool
  pub maintain_order : Bool
  pub clean_session : Bool
  pub multi_connection_mode : Bool
  pub resume_subscriptions : Bool
  pub pool_enabled : Bool
  pub connect_timeout : ℤ
  pub write_timeout : ℤ
  pub keep_alive : ℤ
  pub max_reconnect_interval : ℤ
  pub graceful_shutdown_period : ℤ
  pub credential_fetch_timeout : ℤ
  pub ack_timeout : ℤ
  pub connect_retry_policy : ConnectRetryPolicy
  pub start_options : Option StartOptions
  pub on_connect_handler : Option ℕ
  pub on_connection_lost_handler : Option ℕ
  pub on_reconnect_handler : Option ℕ
  pub shared_subscription_predicate : String → Bool
  pub logger : Option ℕ
  pub info_emitter_cfg : Option EmitterConfig
  pub paho_log_level : LogLevel
  pub new_encoder : Encoder
  pub new_decoder : Decoder
  pub store : ℕ
  pub pool_size : ℕ

abbrev pub second : ℕ
second = 1_000_000_000
