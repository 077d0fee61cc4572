-- ===== src/Client/Exec/Frame.antt =====
-- What execute leaves alone, and its branches with one connection or none.
use courier_go.Base.{
  ℕ, true, false, ◌||◌, Option, none, some, [], ◌∷◌, ◌≡◌, refl, ap, ◌∙◌, ◌<◌, ◌≢◌, arith, length,
  get_elem?, get_elem?_total, length-map, Bool-cases, inl, inr, ◌==◌, or_true,
}
use courier_go.Libs.{Libs}
use courier_go.Paho.{MqttClient, Context, Broker}
use courier_go.Client.{InternalState, Client, invoke_client_id_callback}
use courier_go.Client.Exec.{
  Call, returned, panicked, ExecOpt, exec_all, exec_one_random, exec_one_round_robin, with_state,
  unset, Executed, states, run_all, run_one, nth, run_random, run_round_robin, exec_multi_conn,
  is_uninitialized, execute,
}
use courier_go.Client.Exec.Laws.{IsMulti, connections, execute-multi, execute-exec_all}

ne_zero : (n : ℕ) → n ≢ 0 → (n == 0) ≡ false
ne_zero n h = ground arith

module _ ⦃libs : Libs⦄ where
  -- The parts of a client that execute never writes.
  abbrev pub Keeps : Client → Client → Type 0
  Keeps c d =
      (d.subscriptions ≡ c.subscriptions)
      × (d.options ≡ c.options)
      × (d.mqtt_client ≡ c.mqtt_client)
      × (d.ordered_clients ≡ c.ordered_clients)

  run_one-Keeps :
      (c : Client) (ctx : Context) (f : Call) (o : Option MqttClient)
      → Keeps c (run_one c ctx f o).client
  unfolding run_one
  run_one-Keeps c ctx f none = (refl, refl, refl, refl)
  run_one-Keeps c ctx f (some m) = (refl, refl, refl, refl)

  exec_multi_conn-Keeps :
      (c : Client) (ctx : Context) (b : Broker) (f : Call) (eo : ExecOpt)
      → Keeps c (exec_multi_conn c ctx b f eo).client
  unfolding exec_multi_conn run_all
  exec_multi_conn-Keeps c ctx b f exec_all = (refl, refl, refl, refl)
  exec_multi_conn-Keeps c ctx b f exec_one_random = run_one-Keeps c ctx f _
  exec_multi_conn-Keeps c ctx b f exec_one_round_robin =
      run_one-Keeps (record c { rr_counter = _ }) ctx f _
  exec_multi_conn-Keeps c ctx b f (with_state eo) = (refl, refl, refl, refl)
  exec_multi_conn-Keeps c ctx b f unset = (refl, refl, refl, refl)

  pub execute-Keeps :
      (c : Client) (ctx : Context) (b : Broker) (f : Call) (eo : ExecOpt)
      → Keeps c (execute c ctx b f eo).client
  unfolding execute
  execute-Keeps c ctx b f eo = elim (Bool-cases (is_uninitialized c)) [
    | inl e ↦ rw e (refl, refl, refl, refl)
    | inr e ↦ elim (Bool-cases (c.options.pool_enabled || c.options.multi_connection_mode)) [
      | inl m ↦ rw (e, m) (exec_multi_conn-Keeps c ctx b f eo)
      | inr s ↦ rw (e, s) (run_one-Keeps c ctx f c.mqtt_client)
    ]
  ]

  -- The result of a run on the connection that an index picks.
  run_random-in :
      (c : Client) (ctx : Context) (b : Broker) (f : Call)
      → length (connections c) ≢ 0
      → b.intn (length (connections c)) < length (connections c)
      → (m : MqttClient) × (get_elem? (connections c) (b.intn (length (connections c))) ≡ some m)
        × (run_random c ctx b f ≡ run_one c ctx f (some m))
  unfolding run_random nth
  run_random-in c ctx b f some_client inside =
      let n = length (connections c) in
      let (m, found) = get_elem?_total (connections c) (b.intn n) inside in
      let same = length-map (λ (s : InternalState). s.client) (states c.mqtt_clients) in
      (m, found, rw (← same, ne_zero n some_client, found))

  -- With several connections, and a random source whose Intn(n) lies below n, execOneRandom runs
  -- the function on the connection that the random number picks, tells its ID to the callback of
  -- the context, returns what the function returned, and leaves the client as it was.
  pub execute-exec_one_random :
      (c : Client) (ctx : Context) (b : Broker) (f : Call)
      → IsMulti c
      → length (connections c) ≢ 0
      → b.intn (length (connections c)) < length (connections c)
      → (m : MqttClient) × (get_elem? (connections c) (b.intn (length (connections c))) ≡ some m)
        × (execute c ctx b f exec_one_random ≡ record {
          client = c;
          calls = m ∷ [];
          notified = invoke_client_id_callback ctx m.client_id;
          outcome = returned (f m);
        })
  unfolding exec_multi_conn run_one
  execute-exec_one_random c ctx b f h some_client inside =
      let (m, found, e) = run_random-in c ctx b f some_client inside in
      (m, found, execute-multi c ctx b f exec_one_random h ∙ e)

  -- A client in the multiple connection mode that has its single connection only, as NewClient
  -- leaves it with an address and no resolver: running on one connection, at random or by the
  -- round robin, panics, and running on all of them runs on none and returns nil.
  pub execute_address_only :
      (c : Client) (ctx : Context) (b : Broker) (f : Call) (m : MqttClient)
      → c.options.multi_connection_mode ≡ true
      → c.mqtt_client ≡ some m
      → c.mqtt_clients ≡ []
      → c.ordered_clients ≡ []
      → ((execute c ctx b f exec_one_random).outcome ≡ panicked)
        × ((execute c ctx b f exec_one_round_robin).outcome ≡ panicked)
        × ((execute c ctx b f exec_all).calls ≡ [])
        × ((execute c ctx b f exec_all).outcome ≡ returned none)
  unfolding execute exec_multi_conn run_random run_round_robin run_one nth states
  execute_address_only c ctx b f m multi single none_left none_ordered =
      let on = or_true c.options.pool_enabled _ multi in
      let ready : IsMulti c = (rw (single, is_uninitialized), on) in
      let all = execute-exec_all c ctx b f ready in
      let empty : connections c ≡ [] = rw none_left in
      (
        rw (single, on, none_left),
        rw (single, on, none_ordered),
        ap (λ (e : Executed). e.calls) all ∙ empty,
        ap (λ (e : Executed). e.outcome) all ∙ rw empty refl,
      )
