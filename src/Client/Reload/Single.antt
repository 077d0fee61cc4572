-- ===== src/Client/Reload/Single.antt =====
-- What attemptSingleConnection makes of a client.
use courier_go.Base.{◌==◌, String, List, [], ◌∷◌, length, ◌∙◌, refl, Bool-cases, inl, inr}
use courier_go.Libs.{Libs}
use courier_go.Paho.{Broker}
use courier_go.Client.{Client, SubscriptionMeta}
use courier_go.Client.Exec.Frame.{Keeps, execute-Keeps}
use courier_go.Client.Handlers.{subscriber_funcs, subscribe_handler, join}
use courier_go.Client.Lifecycle.{background}
use courier_go.Client.Reload.Attempts.{resume_subscriptions, subscribe_each, last_client}

module _ ⦃libs : Libs⦄ where
  Keeps-trans : (c d e : Client) → Keeps c d → Keeps d e → Keeps c e
  Keeps-trans c d e p q = (q.0 ∙ p.0, q.1 ∙ p.1, q.2 ∙ p.2, q.3 ∙ p.3)

  last_client-Keeps :
      (b : Broker) (subs : List (String × SubscriptionMeta)) (c : Client)
      → Keeps c (last_client c (subscribe_each subscriber_funcs b subs c))
  unfolding last_client subscribe_each subscriber_funcs subscribe_handler
  last_client-Keeps b [] c = (refl, refl, refl, refl)
  last_client-Keeps b ((k, m) ∷ subs) c =
      let e = subscribe_handler c background b m.topic m.callback m.options in
      Keeps-trans c e.client
        (last_client e.client (subscribe_each subscriber_funcs b subs e.client))
        (execute-Keeps c background b _ _) (last_client-Keeps b subs e.client)

  pub resume_subscriptions-Keeps :
      (b : Broker) (c : Client) → Keeps c (resume_subscriptions subscriber_funcs b c).client
  unfolding resume_subscriptions join
  resume_subscriptions-Keeps b c = elim (Bool-cases (length c.subscriptions == 0)) [
    | inl e ↦ rw e (refl, refl, refl, refl)
    | inr e ↦ rw e (last_client-Keeps b c.subscriptions c)
  ]
