-- ===== src/Client/Lifecycle/Ordered.antt =====
-- A new client has the same connections in mqttClients and in orderedClients.
use courier_go.Base.{
  ℕ, zero, suc, ◌+◌, List, [], ◌∷◌, ◌++◌, String, map, concat, decimal, KeysBelow, insert-numbered,
  index_of_key-dashed, ◌≡◌, refl, ap, sym, subst, ◌∙◌, if_either, str_eq,
}
use courier_go.ClientOptions.Apply.{ClientOption}
use courier_go.ClientOptions.{ClientOptions}
use courier_go.Libs.{Libs}
use courier_go.Paho.{Broker}
use courier_go.Paho.Setup.{Host, to_client_options}
use courier_go.Client.{Client, InternalState}
use courier_go.Client.Exec.{states}
use courier_go.Client.Exec.Laws.{connections}
use courier_go.Client.Lifecycle.{
  add_to_pool, pool_from, initialize_connection_pool, initialize, empty_client, created, new_client,
}
use courier_go.Client.Lifecycle.New.{configured, new_client-created}

module _ ⦃libs : Libs⦄ where
  -- One list of connections in both orders.
  abbrev pub IsOrdered : Client → Type 0
  IsOrdered c = c.ordered_clients ≡ connections c

  clients-append :
      (m : List (String × InternalState)) (k : String) (s : InternalState)
      → map (λ t. t.client) (states (m ++ (k, s) ∷ []))
        ≡ map (λ t. t.client) (states m) ++ s.client ∷ []
  unfolding states
  clients-append [] k s = refl
  clients-append ((j, t) ∷ m) k s = λ i. t.client ∷ clients-append m k s i

  add_to_pool-IsOrdered :
      (host : Host) (b : Broker) (i : ℕ) (c : Client)
      → KeysBelow i c.mqtt_clients
      → IsOrdered c
      → IsOrdered (add_to_pool host b i c) × KeysBelow (i + 1) (add_to_pool host b i c).mqtt_clients
  unfolding add_to_pool
  add_to_pool-IsOrdered host b i c below h =
      let m = b.new_client (to_client_options host c.options (concat "-" (decimal i))) in
      let id = concat c.options.client_id (concat "-" (decimal i)) in
      let s : InternalState = record { client = m; subs_called = libs.new_set } in
      let (same, next) =
        insert-numbered i id s c.mqtt_clients below (index_of_key-dashed c.options.client_id i) in
      (
        ap (λ ms. ms ++ m ∷ []) h
            ∙ sym (clients-append c.mqtt_clients id s)
            ∙ ap (λ ms. map (λ (t : InternalState). t.client) (states ms)) (sym same),
        next,
      )

  pool_from-IsOrdered :
      (host : Host) (b : Broker) (c : Client) (rounds i : ℕ)
      → KeysBelow i c.mqtt_clients
      → IsOrdered c
      → IsOrdered (pool_from host b rounds i c)
  unfolding pool_from
  pool_from-IsOrdered host b c zero i below h = h
  pool_from-IsOrdered host b c (suc rounds) i below h =
      let (ordered, next) = add_to_pool-IsOrdered host b i c below h in
      pool_from-IsOrdered host b (add_to_pool host b i c) rounds (i + 1) next ordered

  pool-IsOrdered :
      (host : Host) (b : Broker) (c : Client) → IsOrdered (initialize_connection_pool host b c)
  unfolding initialize_connection_pool states
  pool-IsOrdered host b c =
      pool_from-IsOrdered host b (record c { mqtt_clients = []; ordered_clients = [] })
        c.options.pool_size 0 tt refl

  initialize-IsOrdered :
      (host : Host) (b : Broker) (o : ClientOptions)
      → IsOrdered (initialize host b (empty_client o))
  unfolding initialize empty_client states
  initialize-IsOrdered host b o =
      if_either IsOrdered (str_eq o.broker_address "") _ _ refl
        (if_either IsOrdered o.pool_enabled _ _ (pool-IsOrdered host b (empty_client o)) refl)

  -- A client that NewClient makes, whatever its options.
  pub new_client-IsOrdered :
      (host : Host) (b : Broker) (opts : List ClientOption) (c : Client)
      → new_client host b opts ≡ created c
      → IsOrdered c
  new_client-IsOrdered host b opts c h =
      subst IsOrdered (sym (new_client-created host b opts c h).1)
        (initialize-IsOrdered host b (configured opts))
