-- ===== src/Client/Subscriptions/Laws.antt =====
-- What the client remembers of its subscriptions.
use courier_go.Base.{
  ℕ, String, Bool, true, false, ◌&&◌, Option, none, some, List, [], ◌∷◌, ◌≡◌, refl, ◌∙◌, arith,
  str_eq, contains, lookup, insert, delete, HasUniqueKeys, lookup-insert, lookup-delete,
  lookup_absent, if◌then◌else◌, eq_iff,
}
use courier_go.Libs.{Libs}
use courier_go.Options.{CallOption}
use courier_go.Paho.{Context, Broker}
use courier_go.Client.{SubscriptionMeta, Client}
use courier_go.Client.Exec.{Outcome, returned, panicked, Executed}
use courier_go.Client.Exec.Frame.{execute-Keeps}
use courier_go.Client.Handlers.{
  subscriber_funcs, subscribe_handler, subscribe_multiple_handler, join, unsubscriber_handler,
}
use courier_go.Client.Subscriptions.{
  new_meta, insert_all, delete_all, on_success, subscribe, subscribe_multiple, unsubscribe,
}

abbrev topics_of : List (String × ℕ) → List String
topics_of [] = []
topics_of ((t, q) ∷ r) = t ∷ topics_of r

lookup-delete_all :
    (topics : List String) (j : String) (subs : List (String × SubscriptionMeta))
    → lookup j (delete_all topics subs) ≡ (if contains topics j then none else lookup j subs)
unfolding delete_all
lookup-delete_all [] j subs = refl
lookup-delete_all (t ∷ ts) j subs =
    ground (arith, lookup-delete_all ts j (delete t subs), lookup-delete t j subs)

-- What SubscribeMultiple stores under a key.
abbrev pub given :
    String → List (String × ℕ) → ℕ → Option SubscriptionMeta → Option SubscriptionMeta
given j topics callback old = elim (lookup j topics) [
  | none ↦ old
  | some q ↦ some (new_meta j (CallOption.qos q ∷ []) callback)
]

lookup-insert_all :
    (topics : List (String × ℕ)) (callback : ℕ) (j : String)
    (subs : List (String × SubscriptionMeta))
    → HasUniqueKeys topics
    → lookup j (insert_all topics callback subs) ≡ given j topics callback (lookup j subs)
unfolding insert_all
lookup-insert_all [] callback j subs u = refl
lookup-insert_all ((t, q) ∷ ts) callback j subs u =
    let meta = new_meta t (CallOption.qos q ∷ []) callback in
    ground (
      arith,
      lookup-insert_all ts callback j (insert t meta subs) u.1,
      lookup-insert t j meta subs,
      lookup_absent t ts u.0,
      eq_iff t j,
    )

-- The call returned nil.
abbrev pub succeeded : Outcome → Bool
succeeded panicked = false
succeeded (returned none) = true
succeeded (returned (some e)) = false

if_and {ℓ} :
    {A : Type ℓ} (a b : Bool) (x y z : A)
    → x ≡ (if b then y else z)
    → (if a then x else z) ≡ (if a && b then y else z)
if_and true b x y z h = h
if_and false b x y z h = refl

module _ ⦃libs : Libs⦄ where
  lookup-on_success :
      (update : List (String × SubscriptionMeta) → List (String × SubscriptionMeta)) (e : Executed)
      (o : Outcome) (j : String)
      → e.outcome ≡ o
      → lookup j (on_success update e).client.subscriptions ≡ (
          if succeeded o
          then lookup j (update e.client.subscriptions)
          else lookup j e.client.subscriptions)
  unfolding on_success
  lookup-on_success update e panicked j h = rw (h, on_success)
  lookup-on_success update e (returned none) j h = rw (h, on_success)
  lookup-on_success update e (returned (some x)) j h = rw (h, on_success)

  outcome-on_success :
      (update : List (String × SubscriptionMeta) → List (String × SubscriptionMeta)) (e : Executed)
      (o : Outcome)
      → e.outcome ≡ o
      → (on_success update e).outcome ≡ o
  unfolding on_success
  outcome-on_success update e panicked h = rw (h, on_success) h
  outcome-on_success update e (returned none) h = rw (h, on_success) h
  outcome-on_success update e (returned (some x)) h = rw (h, on_success) h

  -- An update that waits for success, after a handler that left the subscriptions alone.
  lookup-on_success_of :
      (update : List (String × SubscriptionMeta) → List (String × SubscriptionMeta)) (e : Executed)
      (subs : List (String × SubscriptionMeta)) (j : String)
      → e.client.subscriptions ≡ subs
      → lookup j (on_success update e).client.subscriptions ≡ (
          if succeeded (on_success update e).outcome then lookup j (update subs) else lookup j subs)
  lookup-on_success_of update e subs j kept =
      lookup-on_success update e e.outcome j refl
      ∙ rw (outcome-on_success update e e.outcome refl, kept) refl

  -- With the client's own subscriber, a Subscribe that returns nil stores the topic with its options
  -- and callback, in place of what was stored for it, and changes no other topic's entry; one
  -- that fails or panics changes no entry.
  pub lookup-subscribe :
      (c : Client) (ctx : Context) (b : Broker) (topic : String) (callback : ℕ)
      (opts : List CallOption) (j : String)
      → lookup j (subscribe subscriber_funcs c ctx b topic callback opts).client.subscriptions ≡ (
          if succeeded (subscribe subscriber_funcs c ctx b topic callback opts).outcome
            && str_eq topic j
          then some (new_meta topic opts callback)
          else lookup j c.subscriptions)
  unfolding subscribe subscriber_funcs subscribe_handler
  lookup-subscribe c ctx b topic callback opts j =
      lookup-on_success_of (insert topic (new_meta topic opts callback)) _ c.subscriptions j
        (execute-Keeps c ctx b _ _).0
      ∙ if_and (succeeded (subscribe subscriber_funcs c ctx b topic callback opts).outcome)
          (str_eq topic j) _ (some (new_meta topic opts callback)) (lookup j c.subscriptions)
          (lookup-insert topic j (new_meta topic opts callback) c.subscriptions)

  -- With the client's own subscriber, a SubscribeMultiple that returns nil stores each topic of the
  -- map with its QOSLevel as the only option, and changes no other topic's entry; one that fails
  -- or panics changes no entry.
  pub lookup-subscribe_multiple :
      (c : Client) (ctx : Context) (b : Broker) (topics : List (String × ℕ)) (callback : ℕ)
      (j : String)
      → HasUniqueKeys topics
      → lookup j (subscribe_multiple subscriber_funcs c ctx b topics callback).client.subscriptions
        ≡ (if succeeded (subscribe_multiple subscriber_funcs c ctx b topics callback).outcome
            then given j topics callback (lookup j c.subscriptions)
            else lookup j c.subscriptions)
  unfolding subscribe_multiple subscriber_funcs subscribe_multiple_handler join
  lookup-subscribe_multiple c ctx b topics callback j u =
      lookup-on_success_of (insert_all topics callback) _ c.subscriptions j refl
      ∙ rw (lookup-insert_all topics callback j c.subscriptions u) refl

  -- With the client's own unsubscriber, an Unsubscribe that returns nil removes the given topics
  -- and keeps every other entry; one that fails or panics changes no entry.
  pub lookup-unsubscribe :
      (c : Client) (ctx : Context) (b : Broker) (topics : List String) (j : String)
      → lookup j (unsubscribe unsubscriber_handler c ctx b topics).client.subscriptions ≡ (
          if succeeded (unsubscribe unsubscriber_handler c ctx b topics).outcome
            && contains topics j
          then none
          else lookup j c.subscriptions)
  unfolding unsubscribe unsubscriber_handler
  lookup-unsubscribe c ctx b topics j =
      lookup-on_success_of (delete_all topics) _ c.subscriptions j (execute-Keeps c ctx b _ _).0
      ∙ if_and (succeeded (unsubscribe unsubscriber_handler c ctx b topics).outcome)
          (contains topics j) _ none (lookup j c.subscriptions)
          (lookup-delete_all topics j c.subscriptions)
