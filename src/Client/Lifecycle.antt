-- ===== src/Client/Lifecycle.antt =====
-- NewClient, Start, Stop, Run and IsConnected of client.go, client_pool.go and client_stop.go.
pub mod Refusal
pub mod New
pub mod Ordered
pub mod Fresh
pub mod Callbacks
pub mod Stopped
pub mod Kept
use courier_go.Base.{
  ℕ, zero, suc, ◌+◌, ℤ, pos, String, Bool, true, false, ◌&&◌, ◌||◌, Option, none, some, List, [],
  ◌∷◌, ◌++◌, ◌==◌, str_eq, lt_int, concat, decimal, insert, if◌then◌else◌,
}
use courier_go.ClientOptions.{ClientOptions, EmitterConfig, second}
use courier_go.ClientOptions.Apply.{ClientOption, apply_client_options, default_client_options}
use courier_go.Errors.{Error, sentinel, connect_timeout, errorf}
use courier_go.Libs.{Libs}
use courier_go.Paho.{MqttClient, Context, Broker}
use courier_go.Paho.Setup.{Host, to_client_options}
use courier_go.Client.{InternalState, Client}
use courier_go.Client.Exec.{Call, Outcome, returned, panicked, ExecOpt, exec_all, Executed, execute}

-- co.infoEmitterCfg != nil && co.infoEmitterCfg.Emitter != nil && Interval.Seconds() < 1
emitter_too_fast : Option EmitterConfig → Bool
emitter_too_fast none = false
emitter_too_fast (some cfg) = elim cfg.emitter [
  | none ↦ false
  | some e ↦ lt_int cfg.interval (pos second)
]

is_none {ℓ} : {A : Type ℓ} → Option A → Bool
is_none none = true
is_none (some a) = false

-- The checks of NewClient, in their order: the error of the first that fails.
unfoldable pub refusal : ClientOptions → Option Error
unfolding emitter_too_fast is_none
refusal o =
    if str_eq o.broker_address "" && is_none o.resolver
    then some (errorf "at least WithAddress or WithResolver ClientOption should be used")
    else if o.pool_enabled && o.multi_connection_mode
    then some (errorf "poolEnabled and multiConnectionMode cannot be used together")
    else if emitter_too_fast o.info_emitter_cfg
    then some (errorf "client info emitter interval must be greater than or equal to 1s")
    else none

-- context.Background()
abbrev pub background : Context
background = record { has_deadline = false; err = errorf ""; client_id_callback = false }

-- handleInfoEmitter starts an emitter when one is configured.
emitter_configured : Option EmitterConfig → Bool
unfolding is_none
emitter_configured none = false
emitter_configured (some cfg) = elim (is_none cfg.emitter) [ true ↦ false | false ↦ true ]

module _ ⦃libs : Libs⦄ where
  pub empty_client : ClientOptions → Client
  empty_client o = record {
    options = o;
    subscriptions = [];
    mqtt_client = none;
    mqtt_clients = [];
    ordered_clients = [];
    rr_counter = 0;
    multi_conn_revision = 0;
    info_emitter_running = false;
  }

  -- One round of initializeConnectionPool.
  add_to_pool : Host → Broker → ℕ → Client → Client
  unfolding decimal
  add_to_pool host b i c =
      let m = b.new_client (to_client_options host c.options (concat "-" (decimal i))) in
      let id = concat c.options.client_id (concat "-" (decimal i)) in
      record c {
        mqtt_clients = insert id (record { client = m; subs_called = libs.new_set }) c.mqtt_clients;
        ordered_clients = c.ordered_clients ++ m ∷ [];
      }

  -- The loop of initializeConnectionPool: `rounds` rounds from `i` on.
  pool_from : Host → Broker → ℕ → ℕ → Client → Client
  unfolding add_to_pool
  pool_from host b zero i c = c
  pool_from host b (suc rounds) i c = pool_from host b rounds (i + 1) (add_to_pool host b i c)

  -- initializeConnectionPool
  unfoldable pub initialize_connection_pool : Host → Broker → Client → Client
  unfolding pool_from
  initialize_connection_pool host b c =
      pool_from host b c.options.pool_size 0 (record c { mqtt_clients = []; ordered_clients = [] })

  -- The connections that NewClient opens for its address.
  pub initialize : Host → Broker → Client → Client
  unfolding initialize_connection_pool
  initialize host b c =
      if str_eq c.options.broker_address ""
      then c
      else if c.options.pool_enabled
      then initialize_connection_pool host b c
      else record c { mqtt_client = some (b.new_client (to_client_options host c.options "")) }

  pub data Created : Type 0 where
    created : Client → Created
    refused : Error → Created

  -- NewClient; the handlers that it sets are those of Client/Handlers.antt, behind no middleware.
  unfoldable pub new_client : Host → Broker → List ClientOption → Created
  unfolding refusal initialize empty_client
  new_client host b opts =
      let co = apply_client_options opts default_client_options in
      elim (refusal co) [
        | some e ↦ refused e
        | none ↦ created (initialize host b (empty_client co))
      ]

  -- handleInfoEmitter
  unfoldable pub handle_info_emitter : Client → Client
  unfolding emitter_configured
  handle_info_emitter c =
      if emitter_configured c.options.info_emitter_cfg
      then record c { info_emitter_running = true }
      else c

  connect_call : Broker → Call
  connect_call b cc =
      let t = b.connect cc in if t.in_time then t.error else some (sentinel connect_timeout)

  -- runConnect after its execute
  after_connect : Executed → Executed
  unfolding handle_info_emitter
  after_connect e = elim e.outcome [
    | panicked ↦ e
    | returned err ↦ elim err [
      | some _ ↦ e
      | none ↦ record e { client = handle_info_emitter e.client }
    ]
  ]

  -- runConnect
  unfoldable pub run_connect : Client → Broker → Executed
  unfolding connect_call after_connect
  run_connect c b = after_connect (execute c background b (connect_call b) exec_all)

  -- The client after stop() has returned nil.
  abbrev pub cleared : Client → Client
  cleared c = record c {
    mqtt_client = none;
    mqtt_clients = [];
    ordered_clients = [];
    info_emitter_running = false;
  }

  -- stop after its execute
  after_disconnect : Executed → Executed
  after_disconnect e = elim e.outcome [
    | panicked ↦ e
    | returned err ↦ elim err [
      | some _ ↦ record e { client = record (e.client) { info_emitter_running = false } }
      | none ↦ record e { client = cleared e.client }
    ]
  ]

  -- stop: `calls` are the connections that Disconnect was called on
  unfoldable pub stop : Client → Broker → Executed
  unfolding after_disconnect
  stop c b = after_disconnect (execute c background b (λ cc. none) exec_all)

  unfoldable pub any_open : Broker → List MqttClient → Bool
  any_open b [] = false
  any_open b (m ∷ ms) = b.is_connection_open m || any_open b ms

  is_nil : Outcome → Bool
  is_nil (returned none) = true
  is_nil (returned (some e)) = false
  is_nil panicked = false

  open_after : Broker → Executed → Bool
  unfolding any_open is_nil
  open_after b e = is_nil e.outcome && any_open b e.calls

  -- IsConnected: execute returned nil, and one of the clients that it ran on was open
  unfoldable pub is_connected : Client → Broker → Bool
  unfolding open_after
  is_connected c b = open_after b (execute c background b (λ cc. none) exec_all)
