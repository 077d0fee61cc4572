-- ===== src/Telemetry/Refines.antt =====
-- The subscriptions that a client shows, over its whole life.
use courier_go.Base.{String, none, List, lookup, HasUniqueKeys, All, ◌≡◌, subst, sym, ap, ◌∙◌}
use courier_go.ClientOptions.Apply.{ClientOption}
use courier_go.Libs.{Libs}
use courier_go.Paho.{Broker}
use courier_go.Paho.Setup.{Host}
use courier_go.Client.{Client}
use courier_go.Client.Lifecycle.{created, new_client}
use courier_go.Client.Lifecycle.Fresh.{new_client-subscriptions}
use courier_go.Client.Operations.{Operation, operate_all}
use courier_go.Client.Operations.Registry.{
  IsCall, enter_all, entries, operate_all-HasUniqueKeys, new_client-entries,
}
use courier_go.Telemetry.{read_subscription_meta}
use courier_go.Telemetry.Subscriptions.{shown, lookup-read_subscription_meta}

module _ ⦃libs : Libs⦄ where
  -- Refinement of an abstract registry: after any sequence of operations of a client that
  -- NewClient made, starts, stops, lost connections and reloads included, where no topic occurs
  -- twice in the map given to a SubscribeMultiple, the subscriptions that it keeps are what its
  -- Subscribe, SubscribeMultiple and Unsubscribe calls that returned nil have entered, in their
  -- order, into an empty registry, the others having entered nothing; and its information shows
  -- for each topic the level of that entry.
  pub kept-enter_all :
      (host : Host) (b : Broker) (opts : List ClientOption) (c : Client) (os : List Operation)
      (j : String)
      → new_client host b opts ≡ created c
      → All IsCall os
      → (lookup j (operate_all os c).subscriptions ≡ enter_all (entries os c) (λ k. none) j)
        × (lookup j (read_subscription_meta (operate_all os c))
            ≡ shown (enter_all (entries os c) (λ k. none) j) none)
  kept-enter_all host b opts c os j h calls =
      let same = new_client-entries host b opts c os j h calls in
      let unique : HasUniqueKeys c.subscriptions =
        subst HasUniqueKeys (sym (new_client-subscriptions host b opts c h)) tt in
      (
        same,
        lookup-read_subscription_meta (operate_all os c) j (operate_all-HasUniqueKeys os c unique)
            ∙ ap (λ m. shown m none) same,
      )
