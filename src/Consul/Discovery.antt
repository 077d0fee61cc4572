-- ===== src/Consul/Discovery.antt =====
-- The sections of consul/resolver.go that hold r.mu, and the records of its metrics.
pub mod Debounce
use courier_go.Base.{
  ℕ, ◌*◌, ◌+◌, ◌-◌, ◌%◌, ℤ, pos, negsuc, String, Bool, true, false, not, ◌&&◌, Option, none, some,
  List, [], ◌∷◌, map, length, str_eq, lt_int, if◌then◌else◌,
}
use courier_go.Address.{TcpAddress}
use courier_go.Address.Equality.{are_addresses_equal}
use courier_go.Consul.{Metrics, Resolver}

record_metric : (Metrics → Metrics) → Resolver → Resolver
record_metric f r = elim r.metrics [ none ↦ r | some m ↦ record r { metrics = some (f m) } ]

-- recordAPIRequest
unfoldable pub record_api_request : Bool → Resolver → Resolver
unfolding record_metric
record_api_request success r =
    record_metric
      (λ m. record m {
        api_requests = m.api_requests + 1;
        api_failures = if success then m.api_failures else m.api_failures + 1;
      })
      r

-- recordAPIDuration: how many durations are recorded
unfoldable pub record_api_duration : Resolver → Resolver
unfolding record_metric
record_api_duration r = record_metric (λ m. record m { api_durations = m.api_durations + 1 }) r

-- What each call of Consul's API records.
unfoldable pub record_api : Bool → Resolver → Resolver
unfolding record_api_request record_api_duration
record_api success r = record_api_duration (record_api_request success r)

-- recordKVReadError with kv_read_error
unfoldable pub record_kv_read_error : Resolver → Resolver
unfolding record_metric
record_kv_read_error r = record_metric (λ m. record m { kv_read_errors = m.kv_read_errors + 1 }) r

-- recordKVReadError with kv_parse_error
unfoldable pub record_kv_parse_error : Resolver → Resolver
unfolding record_metric
record_kv_parse_error r =
    record_metric (λ m. record m { kv_parse_errors = m.kv_parse_errors + 1 }) r

-- recordKVValueChange
unfoldable pub record_kv_value_change : Resolver → Resolver
unfolding record_metric
record_kv_value_change r =
    record_metric (λ m. record m { kv_value_changes = m.kv_value_changes + 1 }) r

-- recordAddressUpdate
unfoldable pub record_address_update : Resolver → Resolver
unfolding record_metric
record_address_update r =
    record_metric (λ m. record m { address_updates = m.address_updates + 1 }) r

-- What KV().Get and json.Unmarshal answer: an error, no pair or an empty value, a value that does
-- not parse, or the serviceName of the value.
pub data KvAnswer : Type 0 where
  kv_error kv_missing kv_invalid : KvAnswer
  kv_value : String → KvAnswer

-- kvData.ServiceName != "" && kvData.ServiceName != r.serviceName
unfoldable pub is_new_name : String → Resolver → Bool
is_new_name name r = not (str_eq name "") && not (str_eq name r.service_name)

-- The section that stores a new service name, and the metric behind it.
unfoldable pub set_service_name : String → Resolver → Resolver
unfolding is_new_name record_kv_value_change
set_service_name name r =
    if is_new_name name r
    then record_kv_value_change (record r { service_name = name; last_index = 0 })
    else r

-- updateServiceNameFromKV: the resolver, and whether an error is returned
unfoldable pub update_service_name_from_kv : KvAnswer → Resolver → Resolver × Bool
unfolding set_service_name record_api record_kv_read_error record_kv_parse_error
update_service_name_from_kv kv_error r = (record_api false r, true)
update_service_name_from_kv kv_missing r = (record_kv_read_error (record_api true r), true)
update_service_name_from_kv kv_invalid r = (record_kv_parse_error (record_api true r), true)
update_service_name_from_kv (kv_value name) r = (set_service_name name (record_api true r), false)

-- One round of watchKV: the resolver, and whether discover is called next. A missing pair is not
-- recorded here.
unfoldable pub watch_kv_round : KvAnswer → Resolver → Resolver × Bool
unfolding is_new_name set_service_name record_api record_kv_read_error record_kv_parse_error
watch_kv_round kv_error r = (record_kv_read_error (record_api false r), false)
watch_kv_round kv_missing r = (record_api true r, false)
watch_kv_round kv_invalid r = (record_kv_parse_error (record_api true r), false)
watch_kv_round (kv_value name) r = (set_service_name name (record_api true r), is_new_name name r)

-- consulapi.ServiceEntry: Service.Address, Node.Address and Service.Port
pub record ServiceEntry : Type 0 where
  pub service_address : String
  pub node_address : String
  pub port : ℤ

-- uint16(port)
unfoldable pub uint16 : ℤ → ℕ
uint16 (pos n) = n % 65536
uint16 (negsuc n) = 65535 - n % 65536

to_tcp_address : ServiceEntry → TcpAddress
unfolding uint16
to_tcp_address s = record {
  host = if str_eq s.service_address "" then s.node_address else s.service_address;
  port = uint16 s.port;
}

-- convertToTCPAddresses
unfoldable pub convert_to_tcp_addresses : List ServiceEntry → List TcpAddress
unfolding to_tcp_address
convert_to_tcp_addresses [] = []
convert_to_tcp_addresses (s ∷ ss) = to_tcp_address s ∷ convert_to_tcp_addresses ss

-- What Health().Service answers: an error, or meta.LastIndex and the entries.
pub data HealthAnswer : Type 0 where
  health_error : HealthAnswer
  health : ℕ → List ServiceEntry → HealthAnswer

-- The two sections of discover around its query: the first reads the service name and the index.
unfoldable pub query_of : Resolver → String × ℕ
query_of r = (r.service_name, r.last_index)

-- The second section: what it stores for the service that was queried, and the addresses that go
-- on to scheduleAddressUpdate.
unfoldable pub store_answer : String → HealthAnswer → Resolver → Resolver × Option (List TcpAddress)
unfolding record_api convert_to_tcp_addresses
store_answer queried health_error r = (record_api false r, none)
store_answer queried (health index services) r =
    let addresses = convert_to_tcp_addresses services in
    let counted = record_api true r in
    if str_eq queried r.service_name
    then (
      record counted { last_index = index; last_instance_count = length addresses },
      some addresses,
    )
    else (counted, none)

-- scheduleAddressUpdate: the resolver, and the addresses to publish at once
unfoldable pub schedule_address_update :
    List TcpAddress → Resolver → Resolver × Option (List TcpAddress)
unfolding record_address_update
schedule_address_update addresses r =
    if are_addresses_equal r.last_addresses addresses
    then (record r { armed = false; pending_addresses = none }, none)
    else if lt_int (pos 0) r.debounce_duration
    then (record r { armed = true; pending_addresses = some addresses }, none)
    else (
      record_address_update (record r { armed = false; last_addresses = addresses }),
      some addresses,
    )

-- The section of the timer's function: the resolver, and the addresses to publish
unfoldable pub take_pending : Resolver → Resolver × Option (List TcpAddress)
unfolding record_address_update
take_pending r = elim r.pending_addresses [
  | none ↦ (r, none)
  | some addresses ↦ (
    record_address_update (record r { last_addresses = addresses; pending_addresses = none }),
    some addresses,
  )
]

-- observeInstanceCount: what is observed, and under which service name
unfoldable pub observe_instance_count : Resolver → Option (String × ℕ)
observe_instance_count r =
    if str_eq r.service_name "" then none else some (r.service_name, r.last_instance_count)
