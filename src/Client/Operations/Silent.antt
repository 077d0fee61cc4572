-- ===== src/Client/Operations/Silent.antt =====
-- The operations that leave the kept subscriptions alone.
use courier_go.Base.{
  ℕ, String, List, [], ◌∷◌, length, ◌==◌, if_either, Bool-cases, inl, inr, ◌≡◌, refl, ◌∙◌,
}
use courier_go.Address.{TcpAddress}
use courier_go.Libs.{Libs}
use courier_go.Options.{CallOption}
use courier_go.Paho.{Context, Broker, Encoded, encoded, failed}
use courier_go.Paho.Setup.{Host}
use courier_go.Client.{Client, SubscriptionMeta}
use courier_go.Client.Exec.{Executed, exec_one_round_robin}
use courier_go.Client.Exec.Frame.{execute-Keeps}
use courier_go.Client.Handlers.{publish_handler, subscribe_handler, subscriber_funcs, join}
use courier_go.Client.Lifecycle.{any_open, background}
use courier_go.Client.Reload.{replace_clients}
use courier_go.Client.Reload.Attempts.{
  attempt_connections, resume_subscriptions, subscribe_each, last_client,
}
use courier_go.Client.Reload.Replace.{dialled, replace_clients_open, replace_clients_closed}
use courier_go.Client.Operations.Attempted.{attempted_holds}
use courier_go.Client.Operations.{attempted}

module _ ⦃libs : Libs⦄ where
  pub publish-subscriptions :
      (c : Client) (ctx : Context) (b : Broker) (topic : String) (message : ℕ)
      (opts : List CallOption)
      → (publish_handler c ctx b topic message opts).client.subscriptions ≡ c.subscriptions
  unfolding publish_handler
  publish-subscriptions c ctx b topic message opts =
      go (b.encode c.options.new_encoder message) refl
    where
      go :
          (r : Encoded)
          → b.encode c.options.new_encoder message ≡ r
          → (publish_handler c ctx b topic message opts).client.subscriptions ≡ c.subscriptions
      go (failed e) same = rw (publish_handler, same) refl
      go (encoded bytes) same =
          rw (publish_handler, same) (execute-Keeps c ctx b _ exec_one_round_robin).0

  last_client-subscriptions :
      (b : Broker) (subs : List (String × SubscriptionMeta)) (c : Client)
      → (last_client c (subscribe_each subscriber_funcs b subs c)).subscriptions ≡ c.subscriptions
  unfolding last_client subscribe_each subscriber_funcs subscribe_handler
  last_client-subscriptions b [] c = refl
  last_client-subscriptions b ((k, m) ∷ subs) c =
      last_client-subscriptions b subs
        (subscribe_handler c background b m.topic m.callback m.options).client
      ∙ (execute-Keeps c background b _ _).0

  resume-subscriptions :
      (b : Broker) (c : Client)
      → (resume_subscriptions subscriber_funcs b c).client.subscriptions ≡ c.subscriptions
  unfolding resume_subscriptions join
  resume-subscriptions b c =
      if_either (λ (e : Executed). e.client.subscriptions ≡ c.subscriptions)
        (length c.subscriptions == 0) _ _ refl (last_client-subscriptions b c.subscriptions c)

  replace-subscriptions :
      (host : Host) (b : Broker) (c : Client) (addrs : List TcpAddress)
      → (replace_clients host b c addrs).client.subscriptions ≡ c.subscriptions
  replace-subscriptions host b c addrs = elim (Bool-cases (any_open b (dialled host b c addrs))) [
    | inl e ↦ (replace_clients_open host b c addrs e).kept
    | inr e ↦ rw (replace_clients_closed host b c addrs e) refl
  ]

  pub updating-subscriptions :
      (host : Host) (brokers : ℕ → Broker) (b : Broker) (rounds : ℕ) (addrs : List TcpAddress)
      (c : Client)
      → (attempted c
          (attempt_connections subscriber_funcs host brokers b rounds c addrs)).subscriptions
        ≡ c.subscriptions
  updating-subscriptions host brokers b rounds addrs c =
      attempted_holds subscriber_funcs host brokers b rounds c
        (λ d. d.subscriptions ≡ c.subscriptions) addrs refl (λ cc. refl)
        (replace-subscriptions host b c addrs) (λ d same. resume-subscriptions b d ∙ same)
