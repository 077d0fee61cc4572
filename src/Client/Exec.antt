-- ===== src/Client/Exec.antt =====
-- exec.go: running a function on one connection or on all of them.
pub mod Laws
pub mod RoundRobin
pub mod Frame
pub mod Connections
use courier_go.Base.{
  ℕ, zero, suc, ◌+◌, ◌-◌, ◌%◌, ◌^◌, String, Bool, true, false, ◌||◌, Option, none, some, List, [],
  ◌∷◌, ◌++◌, map, flat_map, length, get_elem?, ltb, ◌==◌, if◌then◌else◌,
}
use courier_go.ClientOptions.{ClientOptions}
use courier_go.Errors.{Error, sentinel, client_not_initialized, invalid_exec_opt, accumulate_errors}
use courier_go.Libs.{Libs}
use courier_go.Paho.{MqttClient, Context, Broker}
use courier_go.Client.{InternalState, Client, invoke_client_id_callback}

-- What `f(client)` returns.
abbrev pub Call : Type 0
Call = MqttClient → Option Error

-- A call of the client that returned, or that stopped by a run-time panic.
pub data Outcome : Type 0 where
  returned : Option Error → Outcome
  panicked : Outcome

-- int(n) % len as an index, for a uint64 n: `none` where it is negative.
unfoldable pub index_of : ℕ → ℕ → Option ℕ
index_of n len =
    if ltb n (2 ^ 63) then some (n % len) else if (2 ^ 64 - n) % len == 0 then some 0 else none

-- cls[n], with a panic for a negative index or one out of range
unfoldable pub nth {ℓ} : {A : Type ℓ} → List A → Option ℕ → Option A
nth xs none = none
nth xs (some i) = get_elem? xs i

module _ ⦃libs : Libs⦄ where
  -- What an execOptWithState does to one connection: its result, the clients that it calls the
  -- function on, and the state that it leaves.
  pub record StateResult : Type 0 where
    pub error : Option Error
    pub calls : List MqttClient
    pub state : InternalState

  pub data ExecOpt : Type 0 where
    exec_all exec_one_random exec_one_round_robin : ExecOpt
    with_state : (Call → InternalState → StateResult) → ExecOpt
    -- an execOpt that is nil
    unset : ExecOpt

  -- What an execute leaves: the client, the connections that the function was called on, the client
  -- IDs that the context's callback was given, and the result.
  pub record Executed : Type 0 where
    pub client : Client
    pub calls : List MqttClient
    pub notified : List String
    pub outcome : Outcome

  unfoldable pub fails : Client → Outcome → Executed
  fails c o = record { client = c; calls = []; notified = []; outcome = o }

  unfoldable pub run_one : Client → Context → Call → Option MqttClient → Executed
  unfolding fails
  run_one c ctx f cc = elim cc [
    | none ↦ fails c panicked
    | some m ↦ record {
      client = c;
      calls = m ∷ [];
      notified = invoke_client_id_callback ctx m.client_id;
      outcome = returned (f m);
    }
  ]

  -- xmap.Values(c.mqttClients), in the iteration order of the map
  unfoldable pub states : List (String × InternalState) → List InternalState
  states [] = []
  states ((k, s) ∷ m) = s ∷ states m

  -- The states behind the pointers of the map after the calls.
  unfoldable pub write_back :
      List (String × InternalState) → List StateResult → List (String × InternalState)
  write_back [] rs = []
  write_back (e ∷ m) [] = e ∷ m
  write_back ((k, s) ∷ m) (r ∷ rs) = (k, r.state) ∷ write_back m rs

  unfoldable pub results : List StateResult → List (Option Error)
  results [] = []
  results (r ∷ rs) = r.error ∷ results rs

  unfoldable pub all_calls : List StateResult → List MqttClient
  all_calls [] = []
  all_calls (r ∷ rs) = r.calls ++ all_calls rs

  -- slice.Reduce(_, accumulateErrors)
  unfoldable pub reduce_errors : List (Option Error) → Option Error
  reduce_errors rs = libs.reduce (accumulate_errors libs.multierror) rs

  -- f(s.client) on one connection
  abbrev pub on_client : Call → InternalState → StateResult
  on_client f s = record { error = f s.client; calls = s.client ∷ []; state = s }

  unfoldable pub run_all : Client → List StateResult → Executed
  unfolding write_back results all_calls reduce_errors
  run_all c rs = record {
    client = record c { mqtt_clients = write_back c.mqtt_clients rs };
    calls = all_calls rs;
    notified = [];
    outcome = returned (reduce_errors (results rs));
  }

  -- rrCounter.next(): the counter is a uint64
  abbrev pub bump : Client → Client
  bump c = record c { rr_counter = (c.rr_counter + 1) % 2 ^ 64 }

  unfoldable pub run_random : Client → Context → Broker → Call → Executed
  unfolding run_one nth states
  run_random c ctx b f =
      let ccs = states c.mqtt_clients in
      let i = if length ccs == 0 then none else some (b.intn (length ccs)) in
      run_one c ctx f (nth (map (λ s. s.client) ccs) i)

  unfoldable pub run_round_robin : Client → Context → Call → Executed
  unfolding run_one nth index_of
  run_round_robin c ctx f =
      let n = length c.ordered_clients in
      let i = if n == 0 then none else index_of c.rr_counter n in
      run_one (bump c) ctx f (nth c.ordered_clients i)

  -- execMultiConn
  unfoldable pub exec_multi_conn : Client → Context → Broker → Call → ExecOpt → Executed
  unfolding run_random run_round_robin run_all states fails
  exec_multi_conn c ctx b f exec_one_random = run_random c ctx b f
  exec_multi_conn c ctx b f exec_one_round_robin = run_round_robin c ctx f
  exec_multi_conn c ctx b f exec_all =
      run_all c (libs.map_concurrent (on_client f) (states c.mqtt_clients))
  exec_multi_conn c ctx b f (with_state eo) =
      run_all c (libs.map_concurrent (eo f) (states c.mqtt_clients))
  exec_multi_conn c ctx b f unset = fails c (returned (some (sentinel invalid_exec_opt)))

  -- Client.execute in the single connection mode
  unfoldable pub exec_single : Client → Context → Call → Executed
  unfolding run_one
  exec_single c ctx f = run_one c ctx f c.mqtt_client

  -- c.mqttClient == nil && len(c.mqttClients) == 0
  abbrev pub is_uninitialized : Client → Bool
  is_uninitialized c = elim c.mqtt_client [ some m ↦ false | none ↦ length c.mqtt_clients == 0 ]

  -- Client.execute
  unfoldable pub execute : Client → Context → Broker → Call → ExecOpt → Executed
  unfolding exec_multi_conn exec_single fails
  execute c ctx b f eo =
      if is_uninitialized c
      then fails c (returned (some (sentinel client_not_initialized)))
      else if c.options.pool_enabled || c.options.multi_connection_mode
      then exec_multi_conn c ctx b f eo
      else exec_single c ctx f
