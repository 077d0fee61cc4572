-- ===== src/Client/Operations/Watching.antt =====
-- watchAddressUpdates of client_resolver.go, as operations of the client.
use courier_go.Base.{
  ℕ, false, Option, none, some, List, [], ◌∷◌, ◌++◌, ◌≡◌, refl, arith, inl, inr, ◌⊎◌,
}
use courier_go.Address.{TcpAddress}
use courier_go.Errors.{Error, sentinel, client_not_initialized}
use courier_go.Libs.{Libs}
use courier_go.Paho.{MqttClient, Context, Broker}
use courier_go.Paho.Setup.{Host}
use courier_go.Client.{Client}
use courier_go.Client.Exec.{Call, ExecOpt, Outcome, returned, panicked, execute, fails}
use courier_go.Client.Handlers.{Subscriber, subscriber_funcs}
use courier_go.Client.Reload.{reload_client}
use courier_go.Client.Reload.Attempts.{attempt_connections, attempt_single_connection}
use courier_go.Client.Operations.{Operation, updating, operate_all}

-- What the select of watchAddressUpdates meets: the closed Done(), or a value of UpdateChan(), with
-- what the environment answers to the attempt. A closed UpdateChan() has the value nil.
pub data ResolverEvent : Type 0 where
  stopped : ResolverEvent
  updated : (ℕ → Broker) → Broker → ℕ → List TcpAddress → ResolverEvent

-- How the loop stands: at its select, returned, in a newClient that goes on trying, or in a panic.
pub data Standing : Type 0 where
  selecting returned_done trying crashed : Standing

module _ ⦃libs : Libs⦄ where
  -- The client, the connections that were disconnected, and the errors that were logged.
  pub record Watched : Type 0 where
    pub client : Client
    pub disconnected : List MqttClient
    pub logged : List Error
    pub standing : Standing

  abbrev stands : Client → Standing → Watched
  stands c s = record { client = c; disconnected = []; logged = []; standing = s }

  abbrev log_error : Option Error → List Error → List Error
  log_error none es = es
  log_error (some e) es = e ∷ es

  -- watchAddressUpdates over the events that its select meets
  unfoldable pub watch_address_updates : Subscriber → Host → List ResolverEvent → Client → Watched
  watch_address_updates sub host [] c = stands c selecting
  watch_address_updates sub host (stopped ∷ events) c = stands c returned_done
  watch_address_updates sub host (updated brokers b rounds addrs ∷ events) c =
      elim (attempt_connections sub host brokers b rounds c addrs) [
        | none ↦ stands c trying
        | some (e, closed) ↦
            let rest = watch_address_updates sub host events e.client in
            elim e.outcome [
              | panicked ↦ record (stands e.client crashed) { disconnected = closed }
              | returned err ↦ record rest {
                disconnected = closed ++ rest.disconnected;
                logged = log_error err rest.logged;
              }
            ]
      ]

  -- The updates before the first closed Done(), as operations.
  abbrev pub updates_of : Host → List ResolverEvent → List Operation
  updates_of host [] = []
  updates_of host (stopped ∷ events) = []
  updates_of host (updated brokers b rounds addrs ∷ events) =
      updating host brokers b rounds addrs ∷ updates_of host events

  -- What the loop has done to a client: some updates, and those that it has not come to.
  pub record IsUpdated (host : Host) (events : List ResolverEvent) (c : Client) : Type 0 where
    pub done : List Operation
    pub left : List Operation
    pub split : updates_of host events ≡ done ++ left
    pub same : (watch_address_updates subscriber_funcs host events c).client ≡ operate_all done c
    pub all :
        (left ≡ [])
        ⊎ ((watch_address_updates subscriber_funcs host events c).standing ≡ trying)
        ⊎ ((watch_address_updates subscriber_funcs host events c).standing ≡ crashed)

  pub Outcome-cases : (o : Outcome) → (o ≡ panicked) ⊎ ((err : Option Error) × (o ≡ returned err))
  Outcome-cases panicked = inl refl
  Outcome-cases (returned err) = inr (err, refl)

  -- An update channel that is closed before Done() reads as nil: in the single connection mode the
  -- loop then drops the connection, disconnects it, logs nothing, and goes on with its other
  -- events; a call on the client before the next address returns ErrClientNotInitialized.
  pub watch_closed :
      (host : Host) (brokers : ℕ → Broker) (b : Broker) (rounds : ℕ) (events : List ResolverEvent)
      (c : Client) (m : MqttClient) (ctx : Context) (later : Broker) (f : Call) (eo : ExecOpt)
      → c.options.multi_connection_mode ≡ false
      → c.mqtt_client ≡ some m
      → c.mqtt_clients ≡ []
      → (watch_address_updates subscriber_funcs host (updated brokers b rounds [] ∷ events) c
          ≡ record (watch_address_updates subscriber_funcs host events
              (record c { mqtt_client = none })) {
                disconnected =
                    m
                    ∷ (watch_address_updates subscriber_funcs host events
                        (record c { mqtt_client = none })).disconnected;
              })
        × (execute (record c { mqtt_client = none }) ctx later f eo
            ≡ fails
                (record c { mqtt_client = none })
                (returned (some (sentinel client_not_initialized))))
  unfolding watch_address_updates attempt_connections attempt_single_connection reload_client
      execute fails
  watch_closed host brokers b rounds events c m ctx later f eo single one no_more =
      (ground (arith, single, one), ground (arith, no_more))
