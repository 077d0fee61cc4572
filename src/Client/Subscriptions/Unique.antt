-- ===== src/Client/Subscriptions/Unique.antt =====
-- The association list that stands for c.subscriptions has each topic once, as a Go map has.
use courier_go.Base.{
  ℕ, String, none, some, List, [], ◌∷◌, insert, delete, HasUniqueKeys, insert-HasUniqueKeys,
  delete-HasUniqueKeys, ◌≡◌, refl, subst, sym,
}
use courier_go.Libs.{Libs}
use courier_go.Options.{CallOption}
use courier_go.Paho.{Context, Broker}
use courier_go.Client.{SubscriptionMeta, Client}
use courier_go.Client.Exec.{Outcome, returned, panicked, Executed}
use courier_go.Client.Exec.Frame.{execute-Keeps}
use courier_go.Client.Handlers.{
  subscriber_funcs, subscribe_handler, subscribe_multiple_handler, join, unsubscriber_handler,
}
use courier_go.Client.Subscriptions.{
  on_success, insert_all, delete_all, new_meta, subscribe, subscribe_multiple, unsubscribe,
}

insert_all-HasUniqueKeys :
    (topics : List (String × ℕ)) (callback : ℕ) (subs : List (String × SubscriptionMeta))
    → HasUniqueKeys subs
    → HasUniqueKeys (insert_all topics callback subs)
unfolding insert_all
insert_all-HasUniqueKeys [] callback subs h = h
insert_all-HasUniqueKeys ((t, q) ∷ rest) callback subs h =
    let meta = new_meta t (CallOption.qos q ∷ []) callback in
    insert_all-HasUniqueKeys rest callback (insert t meta subs) (insert-HasUniqueKeys t meta subs h)

delete_all-HasUniqueKeys :
    (topics : List String) (subs : List (String × SubscriptionMeta))
    → HasUniqueKeys subs
    → HasUniqueKeys (delete_all topics subs)
unfolding delete_all
delete_all-HasUniqueKeys [] subs h = h
delete_all-HasUniqueKeys (t ∷ ts) subs h =
    delete_all-HasUniqueKeys ts (delete t subs) (delete-HasUniqueKeys t subs h)

module _ ⦃libs : Libs⦄ where
  on_success-HasUniqueKeys :
      (update : List (String × SubscriptionMeta) → List (String × SubscriptionMeta)) (e : Executed)
      (o : Outcome)
      → e.outcome ≡ o
      → HasUniqueKeys e.client.subscriptions
      → HasUniqueKeys (update e.client.subscriptions)
      → HasUniqueKeys (on_success update e).client.subscriptions
  unfolding on_success
  on_success-HasUniqueKeys update e panicked h old new = rw (h, on_success) old
  on_success-HasUniqueKeys update e (returned none) h old new = rw (h, on_success) new
  on_success-HasUniqueKeys update e (returned (some x)) h old new = rw (h, on_success) old

  -- An update behind a handler that left the subscriptions alone.
  behind_handler :
      (update : List (String × SubscriptionMeta) → List (String × SubscriptionMeta)) (e : Executed)
      (subs : List (String × SubscriptionMeta))
      → e.client.subscriptions ≡ subs
      → HasUniqueKeys subs
      → HasUniqueKeys (update subs)
      → HasUniqueKeys (on_success update e).client.subscriptions
  behind_handler update e subs kept old new =
      on_success-HasUniqueKeys update e e.outcome refl (subst HasUniqueKeys (sym kept) old)
        (subst (λ s. HasUniqueKeys (update s)) (sym kept) new)

  pub subscribe-HasUniqueKeys :
      (c : Client) (ctx : Context) (b : Broker) (topic : String) (callback : ℕ)
      (opts : List CallOption)
      → HasUniqueKeys c.subscriptions
      → HasUniqueKeys (subscribe subscriber_funcs c ctx b topic callback opts).client.subscriptions
  unfolding subscribe subscriber_funcs subscribe_handler
  subscribe-HasUniqueKeys c ctx b topic callback opts h =
      behind_handler (insert topic (new_meta topic opts callback)) _ c.subscriptions
        (execute-Keeps c ctx b _ _).0 h
        (insert-HasUniqueKeys topic (new_meta topic opts callback) c.subscriptions h)

  pub subscribe_multiple-HasUniqueKeys :
      (c : Client) (ctx : Context) (b : Broker) (topics : List (String × ℕ)) (callback : ℕ)
      → HasUniqueKeys c.subscriptions
      → HasUniqueKeys
          (subscribe_multiple subscriber_funcs c ctx b topics callback).client.subscriptions
  unfolding subscribe_multiple subscriber_funcs subscribe_multiple_handler join
  subscribe_multiple-HasUniqueKeys c ctx b topics callback h =
      behind_handler (insert_all topics callback) _ c.subscriptions refl h
        (insert_all-HasUniqueKeys topics callback c.subscriptions h)

  pub unsubscribe-HasUniqueKeys :
      (c : Client) (ctx : Context) (b : Broker) (topics : List String)
      → HasUniqueKeys c.subscriptions
      → HasUniqueKeys (unsubscribe unsubscriber_handler c ctx b topics).client.subscriptions
  unfolding unsubscribe unsubscriber_handler
  unsubscribe-HasUniqueKeys c ctx b topics h =
      behind_handler (delete_all topics) _ c.subscriptions (execute-Keeps c ctx b _ _).0 h
        (delete_all-HasUniqueKeys topics c.subscriptions h)
