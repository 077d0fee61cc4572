-- ===== src/Client/Operations/Order.antt =====
-- The round robin runs over the connections that a client has, whatever happened before.
use courier_go.Base.{
  ℕ, String, ◌==◌, List, [], ◌∷◌, length, ◌≡◌, ◌∙◌, refl, arith, Bool-cases, inl, inr,
}
use courier_go.Libs.{Libs}
use courier_go.Options.{CallOption}
use courier_go.Paho.{MqttClient, Context, Broker}
use courier_go.Client.{Client, InternalState, SubscriptionMeta}
use courier_go.Client.Exec.{Call, Executed, exec_one_random, with_state}
use courier_go.Client.Exec.Connections.{SameConnections, execute-SameConnections}
use courier_go.Client.Handlers.{subscribe_handler, subscriber_funcs, join, subscribe_only_once}
use courier_go.Client.Lifecycle.{background}
use courier_go.Client.Reload.Attempts.{resume_subscriptions, subscribe_each, last_client}

chain :
    {o o' o'' n n' n'' : List MqttClient}
    → (n' ≡ n) × (o' ≡ o)
    → (n'' ≡ n') × (o'' ≡ o')
    → (n'' ≡ n) × (o'' ≡ o)
chain p q = (q.0 ∙ p.0, q.1 ∙ p.1)

module _ ⦃libs : Libs⦄ where
  subscribe_only_once-client :
      (topic : String) (f : Call) (s : InternalState)
      → (subscribe_only_once topic f s).state.client ≡ s.client
  unfolding subscribe_only_once
  subscribe_only_once-client topic f s = ground arith

  subscribe_handler-SameConnections :
      (c : Client) (ctx : Context) (b : Broker) (topic : String) (callback : ℕ)
      (opts : List CallOption)
      → SameConnections c (subscribe_handler c ctx b topic callback opts).client
  unfolding subscribe_handler
  subscribe_handler-SameConnections c ctx b topic callback opts =
      elim (Bool-cases (c.options.shared_subscription_predicate topic)) [
        | inl e ↦ rw e (
            execute-SameConnections c ctx b _ (with_state (subscribe_only_once topic))
              (subscribe_only_once-client topic))
        | inr e ↦ rw e (execute-SameConnections c ctx b _ exec_one_random tt)
      ]

  last_client-SameConnections :
      (b : Broker) (subs : List (String × SubscriptionMeta)) (c : Client)
      → SameConnections c (last_client c (subscribe_each subscriber_funcs b subs c))
  unfolding last_client subscribe_each subscriber_funcs
  last_client-SameConnections b [] c = (refl, refl)
  last_client-SameConnections b ((k, m) ∷ subs) c =
      let d = (subscribe_handler c background b m.topic m.callback m.options).client in
      chain (subscribe_handler-SameConnections c background b m.topic m.callback m.options)
        (last_client-SameConnections b subs d)

  pub resume-SameConnections :
      (b : Broker) (c : Client)
      → SameConnections c (resume_subscriptions subscriber_funcs b c).client
  unfolding resume_subscriptions join
  resume-SameConnections b c = elim (Bool-cases (length c.subscriptions == 0)) [
    | inl e ↦ rw e (refl, refl)
    | inr e ↦ rw e (last_client-SameConnections b c.subscriptions c)
  ]

  join-same : (c : Client) (es : List Executed) → SameConnections c (join c es).client
  unfolding join
  join-same c es = (refl, refl)
