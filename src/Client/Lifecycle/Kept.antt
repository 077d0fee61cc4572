-- ===== src/Client/Lifecycle/Kept.antt =====
-- What connecting and stopping do to the connections of a client.
use courier_go.Base.{none, some, ◌≡◌, ◌⊎◌, inl, inr, refl, ◌∙◌, arith}
use courier_go.Libs.{Libs}
use courier_go.Paho.{Broker}
use courier_go.Client.{Client}
use courier_go.Client.Exec.{Outcome, returned, panicked, exec_all, Executed, execute}
use courier_go.Client.Exec.Connections.{SameConnections, execute-SameConnections}
use courier_go.Client.Exec.Frame.{execute-Keeps}
use courier_go.Client.Lifecycle.{
  background, handle_info_emitter, after_connect, after_disconnect, cleared, connect_call,
  run_connect, stop,
}

module _ ⦃libs : Libs⦄ where
  handle_info_emitter-SameConnections :
      (c d : Client) → SameConnections c d → SameConnections c (handle_info_emitter d)
  unfolding handle_info_emitter
  handle_info_emitter-SameConnections c d same = ground (arith, same)

  after_connect-SameConnections :
      (c : Client) (e : Executed) (o : Outcome)
      → e.outcome ≡ o
      → SameConnections c e.client
      → SameConnections c (after_connect e).client
  unfolding after_connect
  after_connect-SameConnections c e panicked h same = rw (h, after_connect) same
  after_connect-SameConnections c e (returned none) h same =
      rw (h, after_connect) (handle_info_emitter-SameConnections c e.client same)
  after_connect-SameConnections c e (returned (some x)) h same = rw (h, after_connect) same

  pub run_connect-SameConnections :
      (c : Client) (b : Broker) → SameConnections c (run_connect c b).client
  unfolding run_connect
  run_connect-SameConnections c b =
      let e = execute c background b (connect_call b) exec_all in
      after_connect-SameConnections c e e.outcome refl
        (execute-SameConnections c background b (connect_call b) exec_all tt)

  after_disconnect_cases :
      (c : Client) (e : Executed) (o : Outcome)
      → e.outcome ≡ o
      → SameConnections c e.client
      → SameConnections c (after_disconnect e).client
        ⊎ ((after_disconnect e).client ≡ cleared e.client)
  unfolding after_disconnect
  after_disconnect_cases c e panicked h same = rw (h, after_disconnect) (inl same)
  after_disconnect_cases c e (returned none) h same = rw (h, after_disconnect) (inr refl)
  after_disconnect_cases c e (returned (some x)) h same = rw (h, after_disconnect) (inl same)

  -- A stop keeps the connections, or leaves none.
  pub stop_cases :
      (c : Client) (b : Broker)
      → SameConnections c (stop c b).client ⊎ ((d : Client) × ((stop c b).client ≡ cleared d))
  unfolding stop
  stop_cases c b =
      let e = execute c background b (λ cc. none) exec_all in
      elim (after_disconnect_cases c e e.outcome refl
        (execute-SameConnections c background b (λ cc. none) exec_all tt)) [
          | inl same ↦ inl same
          | inr gone ↦ inr (e.client, gone)
        ]

  after_connect-subscriptions :
      (e : Executed) (o : Outcome)
      → e.outcome ≡ o
      → (after_connect e).client.subscriptions ≡ e.client.subscriptions
  unfolding after_connect handle_info_emitter
  after_connect-subscriptions e panicked h = rw (h, after_connect) refl
  after_connect-subscriptions e (returned none) h = rw (h, after_connect) (ground arith)
  after_connect-subscriptions e (returned (some x)) h = rw (h, after_connect) refl

  pub run_connect-subscriptions :
      (c : Client) (b : Broker) → (run_connect c b).client.subscriptions ≡ c.subscriptions
  unfolding run_connect
  run_connect-subscriptions c b =
      after_connect-subscriptions (execute c background b (connect_call b) exec_all) _ refl
      ∙ (execute-Keeps c background b (connect_call b) exec_all).0

  after_disconnect-subscriptions :
      (e : Executed) (o : Outcome)
      → e.outcome ≡ o
      → (after_disconnect e).client.subscriptions ≡ e.client.subscriptions
  unfolding after_disconnect
  after_disconnect-subscriptions e panicked h = rw (h, after_disconnect) refl
  after_disconnect-subscriptions e (returned none) h = rw (h, after_disconnect) refl
  after_disconnect-subscriptions e (returned (some x)) h = rw (h, after_disconnect) refl

  pub stop-subscriptions :
      (c : Client) (b : Broker) → (stop c b).client.subscriptions ≡ c.subscriptions
  unfolding stop
  stop-subscriptions c b =
      after_disconnect-subscriptions (execute c background b (λ cc. none) exec_all) _ refl
      ∙ (execute-Keeps c background b (λ cc. none) exec_all).0
