-- ===== src/Client/Lifecycle/Fresh.antt =====
-- A new client keeps no subscription.
use courier_go.Base.{ℕ, zero, suc, ◌+◌, List, [], str_eq, if_either, ◌≡◌, refl, ap, ◌∙◌}
use courier_go.ClientOptions.Apply.{ClientOption}
use courier_go.ClientOptions.{ClientOptions}
use courier_go.Libs.{Libs}
use courier_go.Paho.{Broker}
use courier_go.Paho.Setup.{Host}
use courier_go.Client.{Client}
use courier_go.Client.Lifecycle.{
  add_to_pool, pool_from, initialize_connection_pool, initialize, empty_client, created, new_client,
}
use courier_go.Client.Lifecycle.New.{configured, new_client-created}

module _ ⦃libs : Libs⦄ where
  pool_from-subscriptions :
      (host : Host) (b : Broker) (c : Client) (rounds i : ℕ)
      → (pool_from host b rounds i c).subscriptions ≡ c.subscriptions
  unfolding pool_from add_to_pool
  pool_from-subscriptions host b c zero i = refl
  pool_from-subscriptions host b c (suc rounds) i =
      pool_from-subscriptions host b (add_to_pool host b i c) rounds (i + 1)

  initialize-subscriptions :
      (host : Host) (b : Broker) (o : ClientOptions)
      → (initialize host b (empty_client o)).subscriptions ≡ []
  unfolding initialize initialize_connection_pool empty_client
  initialize-subscriptions host b o =
      if_either (λ (c : Client). c.subscriptions ≡ []) (str_eq o.broker_address "") _ _ refl
        (if_either (λ (c : Client). c.subscriptions ≡ []) o.pool_enabled _ _
          (pool_from-subscriptions host b _ o.pool_size 0) refl)

  pub new_client-subscriptions :
      (host : Host) (b : Broker) (opts : List ClientOption) (c : Client)
      → new_client host b opts ≡ created c
      → c.subscriptions ≡ []
  new_client-subscriptions host b opts c h =
      ap (λ (d : Client). d.subscriptions) (new_client-created host b opts c h).1
      ∙ initialize-subscriptions host b (configured opts)
