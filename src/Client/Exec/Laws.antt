-- ===== src/Client/Exec/Laws.antt =====
-- What execute does in each of its branches.
use courier_go.Base.{
  String, true, false, ◌||◌, Option, List, [], ◌∷◌, map, ◌≡◌, refl, ap, ◌∙◌, arith, length,
}
use courier_go.Errors.{Error}
use courier_go.Errors.Accumulate.{collected, combined, foldl-accumulate_errors}
use courier_go.Libs.{Libs}
use courier_go.Paho.{MqttClient, Context, Broker}
use courier_go.Client.{InternalState, Client}
use courier_go.Client.Exec.{
  Call, returned, StateResult, ExecOpt, exec_all, with_state, Executed, states, write_back, results,
  all_calls, reduce_errors, on_client, run_all, exec_multi_conn, is_uninitialized, execute,
}

module _ ⦃libs : Libs⦄ where
  -- The connections of a pool or of the multiple connection mode.
  abbrev pub connections : Client → List MqttClient
  connections c = map (λ s. s.client) (states c.mqtt_clients)

  -- The client runs in one of the two modes with several connections.
  abbrev pub IsMulti : Client → Type 0
  IsMulti c =
      (is_uninitialized c ≡ false)
      × ((c.options.pool_enabled || c.options.multi_connection_mode) ≡ true)

  pub reduce_errors-combined :
      (rs : List (Option Error)) → reduce_errors rs ≡ combined (collected rs)
  unfolding reduce_errors
  reduce_errors-combined rs = libs.reduce-foldl _ rs ∙ foldl-accumulate_errors libs.multierror [] rs

  pub execute-multi :
      (c : Client) (ctx : Context) (b : Broker) (f : Call) (eo : ExecOpt)
      → IsMulti c
      → execute c ctx b f eo ≡ exec_multi_conn c ctx b f eo
  unfolding execute
  execute-multi c ctx b f eo h = rw (h.0, h.1)

  write_back_same :
      (f : Call) (m : List (String × InternalState))
      → write_back m (map (on_client f) (states m)) ≡ m
  unfolding write_back states
  write_back_same f [] = refl
  write_back_same f ((k, s) ∷ m) = λ i. (k, s) ∷ write_back_same f m i

  all_calls_same :
      (f : Call) (ss : List InternalState)
      → all_calls (map (on_client f) ss) ≡ map (λ s. s.client) ss
  unfolding all_calls
  all_calls_same f [] = refl
  all_calls_same f (s ∷ ss) = λ i. s.client ∷ all_calls_same f ss i

  results_same :
      (f : Call) (ss : List InternalState)
      → results (map (on_client f) ss) ≡ map f (map (λ s. s.client) ss)
  unfolding results
  results_same f [] = refl
  results_same f (s ∷ ss) = λ i. f s.client ∷ results_same f ss i

  -- What running on all connections leaves.
  abbrev pub everywhere : Client → Call → Executed
  everywhere c f = record {
    client = c;
    calls = connections c;
    notified = [];
    outcome = returned (combined (collected (map f (connections c))));
  }

  -- With several connections, execAll calls the function once on each of them, in the order of the
  -- map, leaves the client as it was, and returns the combination of every error that the calls
  -- gave: nil exactly if they gave none.
  pub execute-exec_all :
      (c : Client) (ctx : Context) (b : Broker) (f : Call)
      → IsMulti c
      → execute c ctx b f exec_all ≡ everywhere c f
  unfolding exec_multi_conn
  execute-exec_all c ctx b f h =
      execute-multi c ctx b f exec_all h
      ∙ ap (run_all c) (libs.map_concurrent-map (on_client f) (states c.mqtt_clients))
      ∙ unfold run_all in
        (λ i. record {
          client = record c { mqtt_clients = write_back_same f c.mqtt_clients i };
          calls = all_calls_same f (states c.mqtt_clients) i;
          notified = [];
          outcome = returned (
              (reduce_errors-combined (results (map (on_client f) (states c.mqtt_clients)))
                  ∙ ap (λ rs. combined (collected rs)) (results_same f (states c.mqtt_clients)))
                i);
        })

  -- An option with state runs on each connection.
  pub execute-with_state :
      (c : Client) (ctx : Context) (b : Broker) (f : Call) (eo : Call → InternalState → StateResult)
      → IsMulti c
      → execute c ctx b f (with_state eo) ≡ run_all c (map (eo f) (states c.mqtt_clients))
  unfolding exec_multi_conn
  execute-with_state c ctx b f eo h =
      execute-multi c ctx b f (with_state eo) h
      ∙ ap (run_all c) (libs.map_concurrent-map (eo f) (states c.mqtt_clients))

  length-states : (m : List (String × InternalState)) → length (states m) ≡ length m
  unfolding states
  length-states [] = refl
  length-states ((k, s) ∷ m) = omega (arith, length-states m)
