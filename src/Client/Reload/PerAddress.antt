-- ===== src/Client/Reload/PerAddress.antt =====
-- multipleClients makes one client for each address: no key of its map occurs twice.
use courier_go.Base.{
  ℕ, ◌+◌, ◌%◌, ◌^◌, String, List, [], ◌∷◌, ◌++◌, length, concat, decimal, insert, KeysBelow,
  insert-numbered, index_of_key-dashed, ◌≡◌, refl, ap, sym, ◌∙◌, arith, append-nil, append_assoc,
}
use courier_go.Address.{TcpAddress, address_string}
use courier_go.Libs.{Libs}
use courier_go.Paho.{MqttClient, Broker}
use courier_go.Paho.Setup.{Host, to_client_options}
use courier_go.Client.{Client}
use courier_go.Client.Reload.{at_address, dial_from, values}

module _ ⦃libs : Libs⦄ where
  values-append :
      (m : List (String × MqttClient)) (k : String) (v : MqttClient)
      → values (m ++ (k, v) ∷ []) ≡ values m ++ v ∷ []
  unfolding values
  values-append [] k v = refl
  values-append ((j, w) ∷ m) k v = λ i. w ∷ values-append m k v i

  -- The client for the address with the index i: its ID ends in "-i-r" for the next revision r.
  abbrev pub client_for : Host → Broker → Client → ℕ → TcpAddress → MqttClient
  client_for host b c i a =
      let revision = (c.multi_conn_revision + 1) % 2 ^ 64 in
      b.new_client (
        to_client_options host (at_address c a)
          (concat (concat "-" (decimal i)) (concat "-" (decimal revision))))

  -- One client for each address, in their order, from an index on.
  abbrev pub clients_for : Host → Broker → Client → ℕ → List TcpAddress → List MqttClient
  clients_for host b c i [] = []
  clients_for host b c i (a ∷ addrs) = client_for host b c i a ∷ clients_for host b c (i + 1) addrs

  pub length-clients_for :
      (host : Host) (b : Broker) (c : Client) (i : ℕ) (addrs : List TcpAddress)
      → length (clients_for host b c i addrs) ≡ length addrs
  length-clients_for host b c i [] = refl
  length-clients_for host b c i (a ∷ addrs) =
      omega (arith, length-clients_for host b c (i + 1) addrs)

  pub values-dial_from :
      (host : Host) (b : Broker) (c : Client) (i : ℕ) (addrs : List TcpAddress)
      (m : List (String × MqttClient))
      → KeysBelow i m
      → values (dial_from host b c i addrs m) ≡ values m ++ clients_for host b c i addrs
  unfolding dial_from
  values-dial_from host b c i [] m below = sym (append-nil (values m))
  values-dial_from host b c i (a ∷ addrs) m below =
      let key = concat (address_string a) (concat "-" (decimal i)) in
      let v = client_for host b c i a in
      let (same, next) =
        insert-numbered i key v m below (index_of_key-dashed (address_string a) i) in
      values-dial_from host b c (i + 1) addrs (insert key v m) next
      ∙ ap (λ n. values n ++ clients_for host b c (i + 1) addrs) same
      ∙ ap (λ l. l ++ clients_for host b c (i + 1) addrs) (values-append m key v)
      ∙ append_assoc (values m) (v ∷ []) (clients_for host b c (i + 1) addrs)

  -- The clients that multipleClients makes are one for each address, in the order of the addresses.
  pub values-dialled :
      (host : Host) (b : Broker) (c : Client) (addrs : List TcpAddress)
      → values (dial_from host b c 0 addrs []) ≡ clients_for host b c 0 addrs
  unfolding values
  values-dialled host b c addrs = values-dial_from host b c 0 addrs [] tt
