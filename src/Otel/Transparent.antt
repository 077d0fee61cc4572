-- ===== src/Otel/Transparent.antt =====
-- What a client does behind the middlewares of an OTel.
use courier_go.Base.{
  ℕ, String, ◌||◌, Option, none, some, List, [], ◌≡◌, refl, Bool-cases, inl, inr, ◌⊎◌,
}
use courier_go.Errors.{Error}
use courier_go.Libs.{Libs}
use courier_go.Options.{CallOption}
use courier_go.Paho.{MqttClient, Context, Broker, Encoded, encoded, failed}
use courier_go.Client.{Client, handle_token}
use courier_go.Client.Exec.{
  Call, ExecOpt, exec_all, exec_one_random, exec_one_round_robin, with_state, unset, Executed,
  run_one, run_random, run_round_robin, exec_multi_conn, exec_single, is_uninitialized, execute,
}
use courier_go.Client.Handlers.{
  publish_handler, subscribe_handler, subscriber_funcs, unsubscriber_handler,
}
use courier_go.Otel.{Otel}
use courier_go.Otel.Calls.{
  with_client_id_callback, finish, publisher_middleware, subscribe_middleware,
  unsubscriber_middleware,
}

Encoded-cases :
    (r : Encoded) → ((e : Error) × (r ≡ failed e)) ⊎ ((bytes : List ℕ) × (r ≡ encoded bytes))
Encoded-cases (failed e) = inl (e, refl)
Encoded-cases (encoded bytes) = inr (bytes, refl)

module _ ⦃libs : Libs⦄ where
  -- Two runs that differ in what a client ID callback is told only.
  abbrev pub SameRun : Executed → Executed → Type 0
  SameRun e d = (d.client ≡ e.client) × (d.calls ≡ e.calls) × (d.outcome ≡ e.outcome)

  run_one-SameRun :
      (c : Client) (ctx : Context) (f : Call) (o : Option MqttClient)
      → SameRun (run_one c ctx f o) (run_one c (with_client_id_callback ctx) f o)
  unfolding run_one
  run_one-SameRun c ctx f none = (refl, refl, refl)
  run_one-SameRun c ctx f (some m) = (refl, refl, refl)

  exec_multi_conn-SameRun :
      (c : Client) (ctx : Context) (b : Broker) (f : Call) (eo : ExecOpt)
      → SameRun
          (exec_multi_conn c ctx b f eo)
          (exec_multi_conn c (with_client_id_callback ctx) b f eo)
  unfolding exec_multi_conn run_random run_round_robin
  exec_multi_conn-SameRun c ctx b f exec_all = (refl, refl, refl)
  exec_multi_conn-SameRun c ctx b f exec_one_random = run_one-SameRun c ctx f _
  exec_multi_conn-SameRun c ctx b f exec_one_round_robin =
      run_one-SameRun (record c { rr_counter = _ }) ctx f _
  exec_multi_conn-SameRun c ctx b f (with_state eo) = (refl, refl, refl)
  exec_multi_conn-SameRun c ctx b f unset = (refl, refl, refl)

  pub execute-SameRun :
      (c : Client) (ctx : Context) (b : Broker) (f : Call) (eo : ExecOpt)
      → SameRun (execute c ctx b f eo) (execute c (with_client_id_callback ctx) b f eo)
  unfolding execute exec_single
  execute-SameRun c ctx b f eo = elim (Bool-cases (is_uninitialized c)) [
    | inl e ↦ rw e (refl, refl, refl)
    | inr e ↦ elim (Bool-cases (c.options.pool_enabled || c.options.multi_connection_mode)) [
      | inl m ↦ rw (e, m) (exec_multi_conn-SameRun c ctx b f eo)
      | inr s ↦ rw (e, s) (run_one-SameRun c ctx f c.mqtt_client)
    ]
  ]

  publish_handler-SameRun :
      (c : Client) (ctx : Context) (b : Broker) (topic : String) (message : ℕ)
      (opts : List CallOption)
      → SameRun
          (publish_handler c ctx b topic message opts)
          (publish_handler c (with_client_id_callback ctx) b topic message opts)
  unfolding publish_handler handle_token
  publish_handler-SameRun c ctx b topic message opts =
      elim (Encoded-cases (b.encode c.options.new_encoder message)) [
        | inl (e, same) ↦ rw (publish_handler, same) (refl, refl, refl)
        | inr (bytes, same) ↦
            rw (publish_handler, same) (execute-SameRun c ctx b _ exec_one_round_robin)
      ]

  -- Behind the middlewares of an OTel, a client publishes and unsubscribes as it does without them:
  -- the same calls on the same connections, the same result, the same client afterwards. What is
  -- lost is the client ID callback of the caller's context.
  pub middlewares_transparent :
      (t : Otel) (c : Client) (ctx : Context) (b : Broker) (topic : String) (message : ℕ)
      (opts : List CallOption) (topics : List String)
      → SameRun
          (publish_handler c ctx b topic message opts)
          (publisher_middleware t publish_handler c ctx b topic message opts).executed
        × SameRun
            (unsubscriber_handler c ctx b topics)
            (unsubscriber_middleware t unsubscriber_handler c ctx b topics).executed
  unfolding publisher_middleware unsubscriber_middleware finish unsubscriber_handler handle_token
  middlewares_transparent t c ctx b topic message opts topics =
      (publish_handler-SameRun c ctx b topic message opts, execute-SameRun c ctx b _ _)

  -- Behind the middleware of an OTel, Subscribe forgets its options: it does what the client's own
  -- handler does with no options, so it asks for level 0 whatever QOSLevel it is given.
  pub subscribe_forgets_options :
      (t : Otel) (instrument : ℕ → ℕ) (c : Client) (ctx : Context) (b : Broker) (topic : String)
      (callback : ℕ) (opts : List CallOption)
      → SameRun
          (subscribe_handler c ctx b topic callback [])
          (subscribe_middleware t instrument subscriber_funcs c ctx b topic callback opts).executed
  unfolding subscribe_middleware finish subscriber_funcs subscribe_handler handle_token
  subscribe_forgets_options t instrument c ctx b topic callback opts = execute-SameRun c ctx b _ _
