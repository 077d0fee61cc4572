-- ===== src/Client/Reload/Replace.antt =====
-- What attemptMultiConnections makes of a client's connections.
use courier_go.Base.{
  ◌+◌, ◌%◌, ◌^◌, ◌≢◌, String, true, false, List, [], ◌∷◌, map, length, ◌≡◌, refl, subst, ap, ◌∙◌,
  append-nil, arith,
}
use courier_go.Address.{TcpAddress}
use courier_go.Libs.{Libs}
use courier_go.Paho.{MqttClient, Broker}
use courier_go.Paho.Setup.{Host}
use courier_go.Client.{Client}
use courier_go.Client.Exec.{states}
use courier_go.Client.Exec.Laws.{connections}
use courier_go.Client.Handlers.Lacking.{lacking}
use courier_go.Client.Lifecycle.{any_open}
use courier_go.Client.Reload.PerAddress.{clients_for, values-dialled}
use courier_go.Client.Reload.{
  dial_from, values, new_states, Reloaded, multiple_clients, reload_clients, replace_clients,
}

module _ ⦃libs : Libs⦄ where
  clients-new_states :
      (ms : List (String × MqttClient)) → map (λ s. s.client) (states (new_states ms)) ≡ values ms
  unfolding states new_states values
  clients-new_states [] = refl
  clients-new_states ((k, m) ∷ ms) = λ i. m ∷ clients-new_states ms i

  lacking-new_states :
      (topic : String) (ms : List (String × MqttClient))
      → lacking topic (states (new_states ms)) ≡ values ms
  unfolding states new_states values
  lacking-new_states topic [] = refl
  lacking-new_states topic ((k, m) ∷ ms) =
      ground (arith, lacking-new_states topic ms, libs.has-new_set topic)

  not_empty :
      (b : Broker) (ms : List (String × MqttClient)) → any_open b (values ms) ≡ true → length ms ≢ 0
  unfolding any_open values
  not_empty b [] h = absurd (ground (arith, h))
  not_empty b (m ∷ ms) h = omega arith

  -- The clients that multipleClients creates for a list of addresses: one for each of them.
  abbrev pub dialled : Host → Broker → Client → List TcpAddress → List MqttClient
  dialled host b c addrs = clients_for host b c 0 addrs

  -- What a reload with a new open connection leaves.
  pub record Replaces (old : Client) (new : List MqttClient) (r : Reloaded) : Type 0 where
    pub fresh : connections r.client ≡ new
    pub same_order : r.client.ordered_clients ≡ connections r.client
    pub closed : r.disconnected ≡ connections old
    pub unsubscribed :
        (topic : String) → lacking topic (states r.client.mqtt_clients) ≡ connections r.client
    pub revision : r.client.multi_conn_revision ≡ (old.multi_conn_revision + 1) % 2 ^ 64
    pub kept : r.client.subscriptions ≡ old.subscriptions
    pub same_options : r.client.options ≡ old.options

  replace_keyed_open :
      (host : Host) (b : Broker) (c : Client) (addrs : List TcpAddress)
      → any_open b (values (dial_from host b c 0 addrs [])) ≡ true
      → Replaces c (values (dial_from host b c 0 addrs [])) (replace_clients host b c addrs)
  unfolding replace_clients multiple_clients reload_clients
  replace_keyed_open host b c addrs h =
      let keyed = dial_from host b c 0 addrs [] in
      let some_client = not_empty b keyed h in
      record {
        fresh = ground (arith, h, some_client, clients-new_states keyed);
        same_order = ground (arith, h, some_client, clients-new_states keyed);
        closed = ground (arith, h, some_client);
        unsubscribed = λ topic.
            ground
              (arith, h, some_client, clients-new_states keyed, lacking-new_states topic keyed);
        revision = ground (arith, h, some_client);
        kept = ground (arith, h, some_client);
        same_options = ground (arith, h, some_client);
      }

  replace_keyed_closed :
      (host : Host) (b : Broker) (c : Client) (addrs : List TcpAddress)
      → any_open b (values (dial_from host b c 0 addrs [])) ≡ false
      → replace_clients host b c addrs
        ≡ record { client = c; disconnected = values (dial_from host b c 0 addrs []) }
  unfolding replace_clients multiple_clients reload_clients
  replace_keyed_closed host b c addrs h =
      ground (arith, h, append-nil (values (dial_from host b c 0 addrs [])))

  pub replace_clients_open :
      (host : Host) (b : Broker) (c : Client) (addrs : List TcpAddress)
      → any_open b (dialled host b c addrs) ≡ true
      → Replaces c (dialled host b c addrs) (replace_clients host b c addrs)
  replace_clients_open host b c addrs h =
      let same = values-dialled host b c addrs in
      subst (λ ms. Replaces c ms (replace_clients host b c addrs)) same
        (replace_keyed_open host b c addrs (ap (any_open b) same ∙ h))

  -- When none of the clients for new addresses is open, an empty list of addresses included, the
  -- reload leaves the client as it was and disconnects exactly the new ones.
  pub replace_clients_closed :
      (host : Host) (b : Broker) (c : Client) (addrs : List TcpAddress)
      → any_open b (dialled host b c addrs) ≡ false
      → replace_clients host b c addrs
        ≡ record { client = c; disconnected = dialled host b c addrs }
  replace_clients_closed host b c addrs h =
      let same = values-dialled host b c addrs in
      replace_keyed_closed host b c addrs (ap (any_open b) same ∙ h)
      ∙ (λ i. record { client = c; disconnected = same i })
