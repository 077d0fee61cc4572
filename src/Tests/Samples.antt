-- ===== src/Tests/Samples.antt =====
-- Libraries that meet the laws of Libs.antt, a broker and some clients.
use courier_go.Base.{
  String, true, false, not, ◌&&◌, Option, none, some, List, [], ◌∷◌, ◌++◌, map, foldl, ◌≡◌, refl,
  arith, contains, str_eq, eq_iff, if◌then◌else◌, ◌==◌,
}
use courier_go.Errors.{Error, fault, Multierror, pieces}
use courier_go.Errors.Accumulate.{combined}
use courier_go.Libs.{Libs}
use courier_go.ClientOptions.Apply.{default_client_options}
use courier_go.Paho.{MqttClient, Token, Broker, Context, encoded}
use courier_go.Paho.Setup.{Host}
use courier_go.Client.{Client, InternalState}

abbrev append_errors : List Error → List (Option Error) → List Error
append_errors m [] = m
append_errors m (e ∷ es) = append_errors (m ++ pieces e) es

abbrev pub list_multierror : Multierror
list_multierror = record {
  append = append_errors;
  error_or_nil = combined;
  append-nil = λ m. refl;
  append-cons = λ m e es. refl;
  error_or_nil-nil = refl;
  error_or_nil-cons = λ e es. refl;
}

abbrev remove_all : List String → List String → List String
remove_all [] ts = []
remove_all (s ∷ ss) ts = let rest = remove_all ss ts in if contains ts s then rest else s ∷ rest

pub contains-remove_all :
    (ss ts : List String) (u : String)
    → contains (remove_all ss ts) u ≡ (not (contains ts u) && contains ss u)
contains-remove_all [] ts u = ground arith
contains-remove_all (s ∷ ss) ts u = ground (arith, contains-remove_all ss ts u, eq_iff s u)

instance abbrev pub list_libs : Libs
list_libs = record {
  multierror = list_multierror;
  StringSet = List String;
  new_set = [];
  has = contains;
  add = λ s t. t ∷ s;
  delete = remove_all;
  values = λ s. s;
  has-new_set = λ t. refl;
  has-add = λ s t u. refl;
  has-delete = contains-remove_all;
  contains-values = λ s t. refl;
  reduce = λ f rs. foldl f none rs;
  map_concurrent = map;
  reduce-foldl = λ f rs. refl;
  map_concurrent-map = λ f xs. refl;
}

abbrev pub good_token : Token
good_token = record { done_first = true; in_time = true; error = none }

abbrev pub bad_token : Token
bad_token = record { done_first = true; in_time = true; error = some (fault 7) }

abbrev answer : MqttClient → Token
answer m = if m.ref == 1 then bad_token else good_token

-- A broker on which every call on the connection with the number 1 fails.
abbrev pub flaky : Broker
flaky = record {
  new_client = λ s. record { ref = 0; client_id = s.client_id };
  connect = answer;
  publish = λ m topic qos retained bytes. answer m;
  subscribe = λ m topic qos. answer m;
  subscribe_multiple = λ m topics. answer m;
  unsubscribe = λ m topics. answer m;
  is_connection_open = λ m. m.ref == 0;
  encode = λ e message. encoded (message ∷ []);
  intn = λ n. 1;
}

abbrev pub host : Host
host = record { hostname = some "box"; credentials = λ f. some ("user", "secret") }

abbrev pub context : Context
context = record { has_deadline = true; err = fault 1; client_id_callback = true }

abbrev pub left : MqttClient
left = record { ref = 0; client_id = "c-0" }

abbrev pub right : MqttClient
right = record { ref = 1; client_id = "c-1" }

abbrev pub state : MqttClient → List String → InternalState
state m topics = record { subs_called = topics; client = m }

-- Two connections, of which the first is subscribed to a shared topic.
abbrev pub pair : Client
pair = record {
  options = record default_client_options {
    pool_enabled = true;
    pool_size = 2;
    shared_subscription_predicate = λ t. str_eq t "$share/a";
  };
  subscriptions = [];
  mqtt_client = none;
  mqtt_clients = ("c-0", state left ("$share/a" ∷ [])) ∷ ("c-1", state right []) ∷ [];
  ordered_clients = left ∷ right ∷ [];
  rr_counter = 5;
  multi_conn_revision = 0;
  info_emitter_running = false;
}
