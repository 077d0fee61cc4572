-- ===== src/Client/Subscriptions.antt =====
-- Subscribe, SubscribeMultiple and Unsubscribe of client_subscribe.go and client_unsubscribe.go:
-- the subscriptions that a client keeps.
pub mod Laws
pub mod Kept
pub mod Unique
use courier_go.Base.{
  ℕ, String, Bool, true, false, ◌||◌, Option, none, some, List, [], ◌∷◌, ◌++◌, ◌==◌, length, insert,
  delete, if◌then◌else◌,
}
use courier_go.Errors.{Error}
use courier_go.Libs.{Libs}
use courier_go.Options.{CallOption}
use courier_go.Paho.{MqttClient, Context, Broker}
use courier_go.Client.{SubscriptionMeta, Client}
use courier_go.Client.Exec.{Outcome, returned, panicked, Executed, fails}
use courier_go.Client.Handlers.{Subscriber, Unsubscriber, join}

-- &subscriptionMeta{...}
abbrev pub new_meta : String → List CallOption → ℕ → SubscriptionMeta
new_meta topic opts callback = record { topic = topic; options = opts; callback = callback }

insert_all :
    List (String × ℕ) → ℕ → List (String × SubscriptionMeta) → List (String × SubscriptionMeta)
insert_all [] callback subs = subs
insert_all ((topic, q) ∷ rest) callback subs =
    insert_all rest callback (insert topic (new_meta topic (CallOption.qos q ∷ []) callback) subs)

delete_all : List String → List (String × SubscriptionMeta) → List (String × SubscriptionMeta)
delete_all [] subs = subs
delete_all (topic ∷ topics) subs = delete_all topics (delete topic subs)

module _ ⦃libs : Libs⦄ where
  -- if err := ...; err != nil { return err }, and else an update of c.subscriptions
  on_success :
      (List (String × SubscriptionMeta) → List (String × SubscriptionMeta)) → Executed → Executed
  on_success update e = elim e.outcome [
    | panicked ↦ e
    | returned err ↦ elim err [
      | some _ ↦ e
      | none ↦ record e {
        client = record (e.client) { subscriptions = update e.client.subscriptions };
      }
    ]
  ]

  -- Client.Subscribe, with the subscriber of the chain
  unfoldable pub subscribe :
      Subscriber → Client → Context → Broker → String → ℕ → List CallOption → Executed
  unfolding on_success
  subscribe sub c ctx b topic callback opts =
      on_success (insert topic (new_meta topic opts callback))
        (sub.subscribe c ctx b topic callback opts)

  -- Client.SubscribeMultiple
  unfoldable pub subscribe_multiple :
      Subscriber → Client → Context → Broker → List (String × ℕ) → ℕ → Executed
  unfolding on_success insert_all
  subscribe_multiple sub c ctx b topics callback =
      on_success (insert_all topics callback) (sub.subscribe_multiple c ctx b topics callback)

  -- Client.Unsubscribe
  unfoldable pub unsubscribe : Unsubscriber → Client → Context → Broker → List String → Executed
  unfolding on_success delete_all
  unsubscribe unsub c ctx b topics = on_success (delete_all topics) (unsub c ctx b topics)
