-- ===== src/Client/Operations/Registry.antt =====
-- The kept subscriptions against an abstract registry, which only successful calls write.
use courier_go.Base.{
  ℕ, String, Bool, true, false, ◌&&◌, Option, none, some, List, [], ◌∷◌, str_eq, contains, lookup,
  HasUniqueKeys, All, if◌then◌else◌, ◌≡◌, refl, ap, sym, subst, ◌∙◌,
}
use courier_go.ClientOptions.Apply.{ClientOption}
use courier_go.Libs.{Libs}
use courier_go.Options.{CallOption}
use courier_go.Paho.{Broker}
use courier_go.Paho.Setup.{Host}
use courier_go.Client.{Client, SubscriptionMeta}
use courier_go.Client.Handlers.{subscriber_funcs, unsubscriber_handler}
use courier_go.Client.Handlers.Lost.{remove_stored_subs_called}
use courier_go.Client.Lifecycle.{created, new_client}
use courier_go.Client.Lifecycle.Kept.{run_connect-subscriptions, stop-subscriptions}
use courier_go.Client.Subscriptions.{subscribe, subscribe_multiple, unsubscribe, new_meta}
use courier_go.Client.Subscriptions.Laws.{
  given, succeeded, lookup-subscribe, lookup-subscribe_multiple, lookup-unsubscribe,
}
use courier_go.Client.Subscriptions.Unique.{
  subscribe-HasUniqueKeys, subscribe_multiple-HasUniqueKeys, unsubscribe-HasUniqueKeys,
}
use courier_go.Client.Operations.Silent.{publish-subscriptions, updating-subscriptions}
use courier_go.Client.Lifecycle.Fresh.{new_client-subscriptions}
use courier_go.Client.Operations.{
  Operation, publishing, subscribing, subscribing_multiple, unsubscribing, starting, stopping,
  losing, updating, operate, operate_all,
}

-- What a user may know of his subscriptions: the meta of each topic that he is subscribed to.
abbrev pub Registry : Type 0
Registry = String → Option SubscriptionMeta

-- A call that returned nil, or any other step.
pub data Entry : Type 0 where
  added : String → List CallOption → ℕ → Entry
  added_all : List (String × ℕ) → ℕ → Entry
  removed : List String → Entry
  nothing : Entry

abbrev pub enter : Entry → Registry → Registry
enter (added topic opts callback) r j =
    if str_eq topic j then some (new_meta topic opts callback) else r j
enter (added_all topics callback) r j = given j topics callback (r j)
enter (removed topics) r j = if contains topics j then none else r j
enter nothing r j = r j

abbrev pub enter_all : List Entry → Registry → Registry
enter_all [] r = r
enter_all (e ∷ es) r = enter_all es (enter e r)

-- The argument of a SubscribeMultiple is a Go map.
abbrev pub IsCall : Operation → Type 0
IsCall (subscribing_multiple ctx b topics callback) = HasUniqueKeys topics
IsCall o = Unit {0}

enter_if :
    (s : Bool) (e : Entry) (r : Registry) (j : String)
    → enter (if s then e else nothing) r j ≡ (if s then enter e r j else r j)
enter_if true e r j = refl
enter_if false e r j = refl

if_if {ℓ} :
    {A : Type ℓ} (a b : Bool) (x y : A)
    → (if a then (if b then x else y) else y) ≡ (if a && b then x else y)
if_if true b x y = refl
if_if false b x y = refl

module _ ⦃libs : Libs⦄ where
  abbrev pub entry_of : Operation → Client → Entry
  entry_of (subscribing ctx b topic callback opts) c =
      if succeeded (subscribe subscriber_funcs c ctx b topic callback opts).outcome
      then added topic opts callback
      else nothing
  entry_of (subscribing_multiple ctx b topics callback) c =
      if succeeded (subscribe_multiple subscriber_funcs c ctx b topics callback).outcome
      then added_all topics callback
      else nothing
  entry_of (unsubscribing ctx b topics) c =
      if succeeded (unsubscribe unsubscriber_handler c ctx b topics).outcome
      then removed topics
      else nothing
  entry_of o c = nothing

  -- The entries of a sequence of operations.
  abbrev pub entries : List Operation → Client → List Entry
  entries [] c = []
  entries (o ∷ os) c = entry_of o c ∷ entries os (operate o c)

  operate-entry :
      (o : Operation) (c : Client) (j : String)
      → IsCall o
      → lookup j (operate o c).subscriptions
        ≡ enter (entry_of o c) (λ k. lookup k c.subscriptions) j
  unfolding operate remove_stored_subs_called
  operate-entry (publishing ctx b topic message opts) c j call =
      ap (lookup j) (publish-subscriptions c ctx b topic message opts)
  operate-entry (subscribing ctx b topic callback opts) c j call =
      lookup-subscribe c ctx b topic callback opts j
      ∙ sym (
          enter_if (succeeded (subscribe subscriber_funcs c ctx b topic callback opts).outcome)
            (added topic opts callback) (λ k. lookup k c.subscriptions) j
          ∙ if_if (succeeded (subscribe subscriber_funcs c ctx b topic callback opts).outcome)
              (str_eq topic j) _ _)
  operate-entry (subscribing_multiple ctx b topics callback) c j call =
      lookup-subscribe_multiple c ctx b topics callback j call
      ∙ sym (
          enter_if (succeeded (subscribe_multiple subscriber_funcs c ctx b topics callback).outcome)
            (added_all topics callback) (λ k. lookup k c.subscriptions) j)
  operate-entry (unsubscribing ctx b topics) c j call =
      lookup-unsubscribe c ctx b topics j
      ∙ sym (
          enter_if (succeeded (unsubscribe unsubscriber_handler c ctx b topics).outcome)
            (removed topics) (λ k. lookup k c.subscriptions) j
          ∙ if_if (succeeded (unsubscribe unsubscriber_handler c ctx b topics).outcome)
              (contains topics j) _ _)
  operate-entry (starting b) c j call = ap (lookup j) (run_connect-subscriptions c b)
  operate-entry (stopping b) c j call = ap (lookup j) (stop-subscriptions c b)
  operate-entry (losing m) c j call = refl
  operate-entry (updating host brokers b rounds addrs) c j call =
      ap (lookup j) (updating-subscriptions host brokers b rounds addrs c)

  operate_all-entries :
      (os : List Operation) (c : Client) (j : String)
      → All IsCall os
      → lookup j (operate_all os c).subscriptions
        ≡ enter_all (entries os c) (λ k. lookup k c.subscriptions) j
  unfolding operate_all
  operate_all-entries [] c j call = refl
  operate_all-entries (o ∷ os) c j (call, calls) =
      operate_all-entries os (operate o c) j calls
      ∙ (λ i. enter_all (entries os (operate o c)) (λ k. operate-entry o c k call i) j)

  operate-HasUniqueKeys :
      (o : Operation) (c : Client)
      → HasUniqueKeys c.subscriptions
      → HasUniqueKeys (operate o c).subscriptions
  unfolding operate remove_stored_subs_called
  operate-HasUniqueKeys (publishing ctx b topic message opts) c h =
      subst HasUniqueKeys (sym (publish-subscriptions c ctx b topic message opts)) h
  operate-HasUniqueKeys (subscribing ctx b topic callback opts) c h =
      subscribe-HasUniqueKeys c ctx b topic callback opts h
  operate-HasUniqueKeys (subscribing_multiple ctx b topics callback) c h =
      subscribe_multiple-HasUniqueKeys c ctx b topics callback h
  operate-HasUniqueKeys (unsubscribing ctx b topics) c h =
      unsubscribe-HasUniqueKeys c ctx b topics h
  operate-HasUniqueKeys (starting b) c h =
      subst HasUniqueKeys (sym (run_connect-subscriptions c b)) h
  operate-HasUniqueKeys (stopping b) c h = subst HasUniqueKeys (sym (stop-subscriptions c b)) h
  operate-HasUniqueKeys (losing m) c h = h
  operate-HasUniqueKeys (updating host brokers b rounds addrs) c h =
      subst HasUniqueKeys (sym (updating-subscriptions host brokers b rounds addrs c)) h

  pub operate_all-HasUniqueKeys :
      (os : List Operation) (c : Client)
      → HasUniqueKeys c.subscriptions
      → HasUniqueKeys (operate_all os c).subscriptions
  unfolding operate_all
  operate_all-HasUniqueKeys [] c h = h
  operate_all-HasUniqueKeys (o ∷ os) c h =
      operate_all-HasUniqueKeys os (operate o c) (operate-HasUniqueKeys o c h)

  -- What a new client keeps after any sequence of operations is what its calls that returned nil
  -- entered into an empty registry.
  pub new_client-entries :
      (host : Host) (b : Broker) (opts : List ClientOption) (c : Client) (os : List Operation)
      (j : String)
      → new_client host b opts ≡ created c
      → All IsCall os
      → lookup j (operate_all os c).subscriptions ≡ enter_all (entries os c) (λ k. none) j
  new_client-entries host b opts c os j h calls = operate_all-entries os c j calls ∙ (λ i.
      enter_all (entries os c) (λ k. lookup k (new_client-subscriptions host b opts c h i)) j)
