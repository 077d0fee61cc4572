-- ===== src/Telemetry/Connections.antt =====
-- The connections that a client shows.
use courier_go.Base.{
  ℕ, suc, String, Bool, true, ◌||◌, some, List, [], ◌∷◌, length, ◌≡◌, ◌≢◌, ◌∙◌, refl, arith,
  contains, if◌then◌else◌,
}
use courier_go.Libs.{Libs}
use courier_go.Paho.{MqttClient, Broker}
use courier_go.Client.{InternalState, Client}
use courier_go.Client.Exec.{states}
use courier_go.Telemetry.{
  OptionsReader, MqttClientInfo, transform_client_info, insert_info, sort_infos, infos,
  multi_client_info, client_info,
}

-- How many elements pass a test.
abbrev pub count {ℓ} : {A : Type ℓ} → (A → Bool) → List A → ℕ
count p [] = 0
count p (x ∷ xs) = let rest = count p xs in if p x then suc rest else rest

count-insert_info :
    (p : MqttClientInfo → Bool) (x : MqttClientInfo) (ys : List MqttClientInfo)
    → count p (insert_info x ys) ≡ count p (x ∷ ys)
unfolding insert_info
count-insert_info p x [] = refl
count-insert_info p x (y ∷ ys) = ground (arith, count-insert_info p x ys)

count-sort_infos :
    (p : MqttClientInfo → Bool) (xs : List MqttClientInfo) → count p (sort_infos xs) ≡ count p xs
unfolding sort_infos
count-sort_infos p [] = refl
count-sort_infos p (x ∷ xs) =
    count-insert_info p x (sort_infos xs) ∙ ground (arith, count-sort_infos p xs)

module _ ⦃libs : Libs⦄ where
  -- The information on one connection.
  abbrev pub info_of : Broker → (MqttClient → OptionsReader) → InternalState → MqttClientInfo
  info_of b reader s = transform_client_info b reader s.client (libs.values s.subs_called)

  count-infos :
      (p : MqttClientInfo → Bool) (b : Broker) (reader : MqttClient → OptionsReader)
      (ss : List InternalState)
      → count p (infos b reader ss) ≡ count (λ s. p (info_of b reader s)) ss
  unfolding infos
  count-infos p b reader [] = refl
  count-infos p b reader (s ∷ ss) = ground (arith, count-infos p b reader ss)

  count-subscribed :
      (topic : String) (b : Broker) (reader : MqttClient → OptionsReader) (ss : List InternalState)
      → count (λ s. contains (info_of b reader s).subscriptions topic) ss
        ≡ count (λ s. libs.has s.subs_called topic) ss
  unfolding transform_client_info
  count-subscribed topic b reader [] = refl
  count-subscribed topic b reader (s ∷ ss) =
      ground (arith, count-subscribed topic b reader ss, libs.contains-values s.subs_called topic)

  -- In the modes with several connections, a client with connections shows each of them exactly
  -- once: for every test there are as many infos that pass it as connections whose own info does.
  -- In particular a shared topic is shown for exactly the connections that are subscribed to it.
  pub client_info_counts :
      (b : Broker) (reader : MqttClient → OptionsReader) (c : Client)
      → length c.mqtt_clients ≢ 0
      → (c.options.multi_connection_mode || c.options.pool_enabled) ≡ true
      → (l : List MqttClientInfo) × (client_info b reader c ≡ some l)
        × ((p : MqttClientInfo → Bool)
            → count p l ≡ count (λ s. p (info_of b reader s)) (states c.mqtt_clients))
        × ((topic : String)
            → count (λ i. contains i.subscriptions topic) l
              ≡ count (λ s. libs.has s.subs_called topic) (states c.mqtt_clients))
  unfolding client_info multi_client_info
  client_info_counts b reader c some_client multi =
      let ss = states c.mqtt_clients in
      let each : (p : MqttClientInfo → Bool)
          → count p (sort_infos (infos b reader ss)) ≡ count (λ s. p (info_of b reader s)) ss =
        λ p. count-sort_infos p (infos b reader ss) ∙ count-infos p b reader ss in
      (
        sort_infos (infos b reader ss),
        ground (arith, multi, some_client),
        each,
        λ topic. each (λ i. contains i.subscriptions topic) ∙ count-subscribed topic b reader ss,
      )
