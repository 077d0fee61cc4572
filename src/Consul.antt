-- ===== src/Consul.antt =====
-- consul/config.go and consul/resolver.go: the settings, the state and the steps of the resolver.
--
-- A method that holds r.mu is one function; what several goroutines do between two such sections
-- is in Consul/Steps.antt. Durations are in nanoseconds; lastIndex is a uint64 that Consul gives.
pub mod Discovery
pub mod Steps
pub mod Created
use courier_go.Base.{
  ℕ, ◌*◌, ◌+◌, ◌-◌, ◌%◌, ℤ, pos, negsuc, String, Bool, true, false, Option, none, some, List, [],
  ◌∷◌, ◌==◌, str_eq, lt_int, if◌then◌else◌,
}
use courier_go.Address.{TcpAddress}
use courier_go.ClientOptions.{second}
use courier_go.Errors.{Error, errorf, wrapf}

-- Config without its logger; `otel` tells whether an OTel is given.
pub record Config : Type 0 where
  pub consul_address : String
  pub healthy_only : Bool
  pub kv_key : String
  pub wait_time : ℤ
  pub otel : Bool
  pub debounce_duration : ℤ

-- DefaultConfig
unfoldable pub default_config : Config
default_config = record {
  consul_address = "localhost:8500";
  healthy_only = true;
  kv_key = "";
  wait_time = pos (300 * second);
  otel = false;
  debounce_duration = pos (5 * second);
}

-- Config.Validate
unfoldable pub validate : Config → Option Error
validate c =
    if str_eq c.kv_key ""
    then some (errorf "consul: KV key is required")
    else if str_eq c.consul_address ""
    then some (errorf "consul: Consul address is required")
    else none

-- The counters of initMetrics.
pub record Metrics : Type 0 where
  pub api_requests : ℕ
  pub api_failures : ℕ
  pub api_durations : ℕ
  pub kv_read_errors : ℕ
  pub kv_parse_errors : ℕ
  pub kv_value_changes : ℕ
  pub address_updates : ℕ

-- Resolver. `metrics` is `none` without an OTel. `armed` is a debounce timer that has not fired;
-- `pending_addresses` is `none` for nil.
pub record Resolver : Type 0 where
  pub service_name : String
  pub healthy_only : Bool
  pub wait_time : ℤ
  pub kv_key : String
  pub last_index : ℕ
  pub last_addresses : List TcpAddress
  pub debounce_duration : ℤ
  pub armed : Bool
  pub pending_addresses : Option (List TcpAddress)
  pub last_instance_count : ℕ
  pub metrics : Option Metrics

unfoldable pub is_zero : ℤ → Bool
is_zero (pos n) = n == 0
is_zero (negsuc n) = false

-- debounceDuration of NewResolver
debounce_of : Config → ℤ
unfolding default_config is_zero
debounce_of c =
    if is_zero c.debounce_duration then default_config.debounce_duration else c.debounce_duration

no_metrics : Metrics
no_metrics = record {
  api_requests = 0;
  api_failures = 0;
  api_durations = 0;
  kv_read_errors = 0;
  kv_parse_errors = 0;
  kv_value_changes = 0;
  address_updates = 0;
}

pub data Made : Type 0 where
  made : Resolver → Made
  refused : Error → Made

new_state : Config → Resolver
unfolding debounce_of no_metrics
new_state c = record {
  service_name = "";
  healthy_only = c.healthy_only;
  wait_time = c.wait_time;
  kv_key = c.kv_key;
  last_index = 0;
  last_addresses = [];
  debounce_duration = debounce_of c;
  armed = false;
  pending_addresses = none;
  last_instance_count = 0;
  metrics = if c.otel then some no_metrics else none;
}

-- What the meter of an OTel refuses: an instrument, by its name, and the callback.
pub record Instruments : Type 0 where
  pub instrument : String → Option Error
  pub callback : Option Error

-- if err != nil { return fmt.Errorf(text, err) }, and else the rest of initMetrics
unless : Option Error → String → Option Error → Option Error
unless none text rest = rest
unless (some e) text rest = some (wrapf text e)

-- initMetrics
unfoldable pub init_metrics : Instruments → Option Error
unfolding unless
init_metrics m =
    unless (m.instrument "courier.consul.service_instances")
      "failed to create service_instances metric: %w"
      (unless m.callback "failed to register service_instances callback: %w" (
        unless (m.instrument "courier.consul.api.requests")
          "failed to create api.requests metric: %w"
          (unless (m.instrument "courier.consul.api.duration")
            "failed to create api.duration metric: %w"
            (unless (m.instrument "courier.consul.kv.read_errors")
              "failed to create kv.read_errors metric: %w"
              (unless (m.instrument "courier.consul.kv.value_changes")
                "failed to create kv.value_changes metric: %w"
                (unless (m.instrument "courier.consul.resolver.address_updates")
                  "failed to create resolver.address_updates metric: %w" none))))))

-- NewResolver; `client_err` is the error of consulapi.NewClient.
unfoldable pub new_resolver : Option Error → Instruments → Config → Made
unfolding validate new_state init_metrics
new_resolver client_err m c = elim (validate c) [
  | some e ↦ refused e
  | none ↦ elim client_err [
    | some e ↦ refused (wrapf "consul: failed to create client: %w" e)
    | none ↦ elim (if c.otel then init_metrics m else none) [
      | some e ↦ refused e
      | none ↦ made (new_state c)
    ]
  ]
]
