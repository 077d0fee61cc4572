-- ===== src/Client/Exec/Connections.antt =====
-- execute never changes which connections a client has, as long as its option keeps them.
use courier_go.Base.{
  String, ◌||◌, Option, none, some, List, [], ◌∷◌, map, ◌≡◌, ◌∙◌, refl, ap, Bool-cases, inl, inr,
}
use courier_go.Libs.{Libs}
use courier_go.Paho.{MqttClient, Context, Broker}
use courier_go.Client.{InternalState, Client}
use courier_go.Client.Exec.{
  Call, StateResult, ExecOpt, exec_all, exec_one_random, exec_one_round_robin, with_state, unset,
  states, write_back, run_all, run_one, run_random, run_round_robin, on_client, exec_multi_conn,
  exec_single, is_uninitialized, execute,
}
use courier_go.Client.Exec.Laws.{connections}

module _ ⦃libs : Libs⦄ where
  abbrev pub SameConnections : Client → Client → Type 0
  SameConnections c d = (connections d ≡ connections c) × (d.ordered_clients ≡ c.ordered_clients)

  -- An execOptWithState leaves the client in its internalState.
  abbrev pub KeepsClient : ExecOpt → Type 0
  KeepsClient (with_state eo) = (f : Call) (s : InternalState) → (eo f s).state.client ≡ s.client
  KeepsClient exec_all = Unit
  KeepsClient exec_one_random = Unit
  KeepsClient exec_one_round_robin = Unit
  KeepsClient unset = Unit

  connections-write_back :
      (g : InternalState → StateResult) (m : List (String × InternalState))
      → ((s : InternalState) → (g s).state.client ≡ s.client)
      → map (λ s. s.client) (states (write_back m (map g (states m))))
        ≡ map (λ s. s.client) (states m)
  unfolding states write_back
  connections-write_back g [] keeps = refl
  connections-write_back g ((k, s) ∷ m) keeps = λ i. keeps s i ∷ connections-write_back g m keeps i

  run_one-SameConnections :
      (c : Client) (ctx : Context) (f : Call) (o : Option MqttClient)
      → SameConnections c (run_one c ctx f o).client
  unfolding run_one
  run_one-SameConnections c ctx f none = (refl, refl)
  run_one-SameConnections c ctx f (some m) = (refl, refl)

  run_all-SameConnections :
      (c : Client) (g : InternalState → StateResult)
      → ((s : InternalState) → (g s).state.client ≡ s.client)
      → SameConnections c (run_all c (libs.map_concurrent g (states c.mqtt_clients))).client
  unfolding run_all
  run_all-SameConnections c g keeps = (
    ap (λ rs. map (λ s. s.client) (states (write_back c.mqtt_clients rs)))
          (libs.map_concurrent-map g (states c.mqtt_clients))
        ∙ connections-write_back g c.mqtt_clients keeps,
    refl,
  )

  exec_multi_conn-SameConnections :
      (c : Client) (ctx : Context) (b : Broker) (f : Call) (eo : ExecOpt)
      → KeepsClient eo
      → SameConnections c (exec_multi_conn c ctx b f eo).client
  unfolding exec_multi_conn run_random run_round_robin
  exec_multi_conn-SameConnections c ctx b f exec_all keeps =
      run_all-SameConnections c (on_client f) (λ s. refl)
  exec_multi_conn-SameConnections c ctx b f exec_one_random keeps =
      run_one-SameConnections c ctx f _
  exec_multi_conn-SameConnections c ctx b f exec_one_round_robin keeps =
      run_one-SameConnections (record c { rr_counter = _ }) ctx f _
  exec_multi_conn-SameConnections c ctx b f (with_state eo) keeps =
      run_all-SameConnections c (eo f) (keeps f)
  exec_multi_conn-SameConnections c ctx b f unset keeps = (refl, refl)

  pub execute-SameConnections :
      (c : Client) (ctx : Context) (b : Broker) (f : Call) (eo : ExecOpt)
      → KeepsClient eo
      → SameConnections c (execute c ctx b f eo).client
  unfolding execute exec_single
  execute-SameConnections c ctx b f eo keeps = elim (Bool-cases (is_uninitialized c)) [
    | inl e ↦ rw e (refl, refl)
    | inr e ↦ elim (Bool-cases (c.options.pool_enabled || c.options.multi_connection_mode)) [
      | inl m ↦ rw (e, m) (exec_multi_conn-SameConnections c ctx b f eo keeps)
      | inr s ↦ rw (e, s) (run_one-SameConnections c ctx f c.mqtt_client)
    ]
  ]
