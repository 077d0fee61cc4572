-- ===== src/Client/Operations/Attempted.antt =====
-- A rule for what an attempt leaves, in either mode.
use courier_go.Base.{ℕ, Option, none, some, List, [], ◌∷◌, ◌≡◌, refl, if_either}
use courier_go.Address.{TcpAddress}
use courier_go.Libs.{Libs}
use courier_go.Paho.{MqttClient, Broker}
use courier_go.Paho.Setup.{Host}
use courier_go.Client.{Client}
use courier_go.Client.Handlers.{Subscriber}
use courier_go.Client.Reload.{
  Connecting, connected, crashed, unfinished, connect_in_turn, reload_client, replace_clients,
}
use courier_go.Client.Reload.Attempts.{
  resume_subscriptions, attempt_single_connection, attempt_multi_connections, attempt_connections,
}
use courier_go.Client.Operations.{attempted}

module _ ⦃libs : Libs⦄ (sub : Subscriber) (host : Host) (brokers : ℕ → Broker) (b : Broker)
    (rounds : ℕ) (c : Client) (P : Client → Type 0) where
  single_holds :
      (addrs : List TcpAddress)
      → P c
      → ((cc : Option MqttClient) → P (record c { mqtt_client = cc }))
      → ((d : Client) → P d → P (resume_subscriptions sub b d).client)
      → P (attempted c (attempt_single_connection sub host brokers b rounds c addrs))
  unfolding attempted attempt_single_connection reload_client
  single_holds [] same single resumed = single none
  single_holds (a ∷ addrs) same single resumed =
      go (connect_in_turn host brokers c (a ∷ addrs) rounds 0) refl
    where
      go :
          (r : Connecting)
          → connect_in_turn host brokers c (a ∷ addrs) rounds 0 ≡ r
          → P (attempted c (attempt_single_connection sub host brokers b rounds c (a ∷ addrs)))
      go unfinished e = rw (e, attempt_single_connection, attempted) same
      go crashed e = rw (e, attempt_single_connection, attempted) same
      go (connected m) e =
          rw (e, attempt_single_connection, attempted)
            (resumed (record c { mqtt_client = some m }) (single (some m)))

  -- What holds of the client before, whatever its single connection, and of one with replaced
  -- connections, and is kept by resumeSubscriptions, holds after the attempt.
  pub attempted_holds :
      (addrs : List TcpAddress)
      → P c
      → ((cc : Option MqttClient) → P (record c { mqtt_client = cc }))
      → P (replace_clients host b c addrs).client
      → ((d : Client) → P d → P (resume_subscriptions sub b d).client)
      → P (attempted c (attempt_connections sub host brokers b rounds c addrs))
  unfolding attempted attempt_connections attempt_multi_connections
  attempted_holds addrs same single replaced resumed =
      if_either (λ o. P (attempted c o)) c.options.multi_connection_mode _ _
        (resumed (replace_clients host b c addrs).client replaced)
        (single_holds addrs same single resumed)
