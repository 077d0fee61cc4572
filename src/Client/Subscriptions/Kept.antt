-- ===== src/Client/Subscriptions/Kept.antt =====
-- Subscribe, SubscribeMultiple and Unsubscribe change the connections as their handlers do.
use courier_go.Base.{ℕ, String, none, some, List, insert, ◌≡◌, refl}
use courier_go.Libs.{Libs}
use courier_go.Options.{CallOption}
use courier_go.Paho.{Context, Broker}
use courier_go.Client.{SubscriptionMeta, Client}
use courier_go.Client.Exec.{Outcome, returned, panicked, Executed}
use courier_go.Client.Exec.Connections.{SameConnections}
use courier_go.Client.Handlers.{Subscriber, Unsubscriber}
use courier_go.Client.Subscriptions.{
  on_success, insert_all, delete_all, new_meta, subscribe, subscribe_multiple, unsubscribe,
}

module _ ⦃libs : Libs⦄ where
  on_success-SameConnections :
      (update : List (String × SubscriptionMeta) → List (String × SubscriptionMeta)) (e : Executed)
      (o : Outcome)
      → e.outcome ≡ o
      → SameConnections e.client (on_success update e).client
  unfolding on_success
  on_success-SameConnections update e panicked h = rw (h, on_success) (refl, refl)
  on_success-SameConnections update e (returned none) h = rw (h, on_success) (refl, refl)
  on_success-SameConnections update e (returned (some x)) h = rw (h, on_success) (refl, refl)

  pub subscribe-SameConnections :
      (sub : Subscriber) (c : Client) (ctx : Context) (b : Broker) (topic : String) (callback : ℕ)
      (opts : List CallOption)
      → SameConnections
          (sub.subscribe c ctx b topic callback opts).client
          (subscribe sub c ctx b topic callback opts).client
  unfolding subscribe
  subscribe-SameConnections sub c ctx b topic callback opts =
      on_success-SameConnections (insert topic (new_meta topic opts callback))
        (sub.subscribe c ctx b topic callback opts) _ refl

  pub subscribe_multiple-SameConnections :
      (sub : Subscriber) (c : Client) (ctx : Context) (b : Broker) (topics : List (String × ℕ))
      (callback : ℕ)
      → SameConnections
          (sub.subscribe_multiple c ctx b topics callback).client
          (subscribe_multiple sub c ctx b topics callback).client
  unfolding subscribe_multiple
  subscribe_multiple-SameConnections sub c ctx b topics callback =
      on_success-SameConnections (insert_all topics callback)
        (sub.subscribe_multiple c ctx b topics callback) _ refl

  pub unsubscribe-SameConnections :
      (unsub : Unsubscriber) (c : Client) (ctx : Context) (b : Broker) (topics : List String)
      → SameConnections (unsub c ctx b topics).client (unsubscribe unsub c ctx b topics).client
  unfolding unsubscribe
  unsubscribe-SameConnections unsub c ctx b topics =
      on_success-SameConnections (delete_all topics) (unsub c ctx b topics) _ refl
