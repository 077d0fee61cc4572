-- ===== src/ClientOptions/Apply.antt =====
-- The options of NewClient and their `apply` methods, and the defaults.
use Prim.Native.String.{String}
use courier_go.Base.{
  ℕ, ℤ, pos, negsuc, String, Bool, true, false, Option, none, some, List, [], ◌∷◌, ◌*◌, concat,
  decimal, ltb, lt_int, if◌then◌else◌,
}
use text.Mathlib.Text.{starts_with}
use courier_go.ClientOptions.{
  LogLevel, default, Encoder, Decoder, StartOptions, EmitterConfig, ClientOptions, second,
}

-- StartOption
pub data StartOption : Type 0 where
  with_max_interval : ℤ → StartOption
  with_on_retry : Option ℕ → StartOption

unfoldable pub apply_start : StartOption → StartOptions → StartOptions
apply_start (with_max_interval d) o = if lt_int (pos 0) d then record o { max_interval = d } else o
apply_start (with_on_retry f) o = record o { on_retry = f }

-- defaultStartOptions
unfoldable pub default_start_options : StartOptions
default_start_options = record { on_retry = none; max_interval = pos (30 * second) }

unfoldable pub apply_starts : List StartOption → StartOptions → StartOptions
apply_starts [] o = o
apply_starts (s ∷ ss) o = apply_starts ss (apply_start s o)

-- ExponentialStartStrategy and WithExponentialStartOptions: the given options over the defaults.
unfoldable pub start_options : List StartOption → StartOptions
unfolding apply_starts apply_start default_start_options
start_options ss = apply_starts ss default_start_options

pub data ClientOption : Type 0 where
  with_client_id with_username with_password : String → ClientOption
  with_tls with_resolver with_credential_fetcher : Option ℕ → ClientOption
  with_auto_reconnect with_clean_session with_maintain_order : Bool → ClientOption
  with_on_connect with_on_connection_lost with_on_reconnect : Option ℕ → ClientOption
  with_tcp_address with_address : String → ℕ → ClientOption
  keep_alive with_keep_alive with_connect_timeout with_write_timeout : ℤ → ClientOption
  with_max_reconnect_interval with_graceful_shutdown_period : ℤ → ClientOption
  with_persistence : ℕ → ClientOption
  with_custom_encoder : Encoder → ClientOption
  with_custom_decoder : Decoder → ClientOption
  with_use_base64_decoder : ClientOption
  with_pool_size : ℤ → ClientOption
  with_exponential_start_options : List StartOption → ClientOption
  with_ack_timeout connect_retry_interval : ℤ → ClientOption
  shared_subscription_predicate : (String → Bool) → ClientOption
  use_multi_connection_mode resume_subscriptions : ClientOption
  with_logger : Option ℕ → ClientOption
  with_paho_log_level : LogLevel → ClientOption
  client_info_emitter : Option EmitterConfig → ClientOption

-- fmt.Sprintf("%s:%d", host, port)
unfoldable pub host_port : String → ℕ → String
unfolding decimal
host_port host port = concat host (concat ":" (decimal port))

-- WithPoolSize
unfoldable pub apply_pool_size : ℤ → ClientOptions → ClientOptions
apply_pool_size (negsuc n) o = o
apply_pool_size (pos n) o =
    if ltb 0 n then record o { pool_size = n; pool_enabled = ltb 1 n } else o

-- ClientOption.apply of every option
unfoldable pub apply_client : ClientOption → ClientOptions → ClientOptions
unfolding apply_pool_size start_options host_port
apply_client (with_client_id s) o = record o { client_id = s }
apply_client (with_username s) o = record o { username = s }
apply_client (with_password s) o = record o { password = s }
apply_client (with_tls c) o = record o { tls_config = c }
apply_client (with_resolver r) o = record o { resolver = r }
apply_client (with_credential_fetcher f) o = record o { credential_fetcher = f }
apply_client (with_auto_reconnect b) o = record o { auto_reconnect = b }
apply_client (with_clean_session b) o = record o { clean_session = b }
apply_client (with_maintain_order b) o = record o { maintain_order = b }
apply_client (with_on_connect h) o = record o { on_connect_handler = h }
apply_client (with_on_connection_lost h) o = record o { on_connection_lost_handler = h }
apply_client (with_on_reconnect h) o = record o { on_reconnect_handler = h }
apply_client (with_tcp_address host port) o = record o { broker_address = host_port host port }
apply_client (with_address host port) o = record o { broker_address = host_port host port }
apply_client (keep_alive d) o = record o { keep_alive = d }
apply_client (with_keep_alive d) o = record o { keep_alive = d }
apply_client (with_connect_timeout d) o = record o { connect_timeout = d }
apply_client (with_write_timeout d) o = record o { write_timeout = d }
apply_client (with_max_reconnect_interval d) o = record o { max_reconnect_interval = d }
apply_client (with_graceful_shutdown_period d) o = record o { graceful_shutdown_period = d }
apply_client (with_persistence s) o = record o { store = s }
apply_client (with_custom_encoder e) o = record o { new_encoder = e }
apply_client (with_custom_decoder d) o = record o { new_decoder = d }
apply_client with_use_base64_decoder o = record o { new_decoder = Decoder.base64_json }
apply_client (with_pool_size n) o = apply_pool_size n o
apply_client (with_exponential_start_options ss) o = record o {
  start_options = some (start_options ss);
}
apply_client (with_ack_timeout d) o = record o { ack_timeout = d }
apply_client (connect_retry_interval d) o = record o {
  connect_retry_policy = record { enabled = true; interval = d };
}
apply_client (shared_subscription_predicate p) o = record o { shared_subscription_predicate = p }
apply_client use_multi_connection_mode o = record o { multi_connection_mode = true }
apply_client resume_subscriptions o = record o { resume_subscriptions = true }
apply_client (with_logger l) o = record o { logger = l }
apply_client (with_paho_log_level l) o = record o { paho_log_level = l }
apply_client (client_info_emitter cfg) o = record o { info_emitter_cfg = cfg }

-- NewClient's loop over its options
unfoldable pub apply_client_options : List ClientOption → ClientOptions → ClientOptions
unfolding apply_client
apply_client_options [] o = o
apply_client_options (opt ∷ opts) o = apply_client_options opts (apply_client opt o)

-- defaultSharedSubscriptionPredicate
unfoldable pub default_shared_subscription_predicate : String → Bool
default_shared_subscription_predicate topic = starts_with topic "$share/"

-- defaultClientOptions; the default logger and the in-memory store have the number 0
unfoldable pub default_client_options : ClientOptions
unfolding default_shared_subscription_predicate
default_client_options = record {
  username = "";
  client_id = "";
  password = "";
  broker_address = "";
  resolver = none;
  credential_fetcher = none;
  tls_config = none;
  auto_reconnect = true;
  maintain_order = true;
  clean_session = false;
  multi_connection_mode = false;
  resume_subscriptions = false;
  pool_enabled = false;
  connect_timeout = pos (15 * second);
  write_timeout = pos (10 * second);
  keep_alive = pos (60 * second);
  max_reconnect_interval = pos (300 * second);
  graceful_shutdown_period = pos (30 * second);
  credential_fetch_timeout = pos (10 * second);
  ack_timeout = pos 0;
  connect_retry_policy = record { enabled = false; interval = pos (10 * second) };
  start_options = none;
  on_connect_handler = none;
  on_connection_lost_handler = none;
  on_reconnect_handler = none;
  shared_subscription_predicate = default_shared_subscription_predicate;
  logger = some 0;
  info_emitter_cfg = none;
  paho_log_level = default;
  new_encoder = Encoder.json;
  new_decoder = Decoder.json;
  store = 0;
  pool_size = 0;
}
