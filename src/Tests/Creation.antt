-- ===== src/Tests/Creation.antt =====
-- NewClient and the options.
use courier_go.Base.{lookup, pos, none, List, [], ◌∷◌, ◌≡◌, refl, arith, ◌↔◌, eq_iff}
use courier_go.ClientOptions.Apply.{
  ClientOption, with_address, with_pool_size, use_multi_connection_mode, apply_client_options,
  default_client_options,
}
use courier_go.Client.{Client}
use courier_go.Client.Exec.{panicked}
use courier_go.Client.Handlers.{publish_handler}
use courier_go.Client.Handlers.Publish.{publish_handler_panics}
use courier_go.Client.Lifecycle.{Created, created, refused, new_client, refusal}
use courier_go.Client.Lifecycle.Refusal.{IsAcceptable, refusal-eq-none_iff}
use courier_go.Client.Lifecycle.New.{configured, StartsAsPool, new_client-StartsAsPool}
use courier_go.Options.{qos}
use courier_go.Client.Operations.{
  Operation, starting, stopping, subscribing_multiple, unsubscribing, publishing, losing,
  subscribing, updating, operate_all,
}
use courier_go.Client.Operations.Registry.{enter_all, entries}
use courier_go.Telemetry.{read_subscription_meta}
use courier_go.Telemetry.Subscriptions.{shown}
use courier_go.Telemetry.Refines.{kept-enter_all}
use courier_go.Tests.Samples.{left, list_libs, flaky, context, host, pair}

refusal-eq-none_iff_example :
    (refusal default_client_options ≡ none) ↔ IsAcceptable default_client_options
refusal-eq-none_iff_example = refusal-eq-none_iff default_client_options

abbrev pool_options : List ClientOption
pool_options = with_address "h" 1883 ∷ with_pool_size (pos 3) ∷ []

abbrev multi_options : List ClientOption
multi_options = with_address "h" 1883 ∷ use_multi_connection_mode ∷ []

-- The client that NewClient makes with accepted options.
abbrev client_of : Created → Client
client_of (created c) = c
client_of (refused e) = pair

pool_created :
    new_client host flaky pool_options ≡ created (client_of (new_client host flaky pool_options))
unfolding new_client apply_client_options default_client_options
pool_created = refl

multi_created :
    new_client host flaky multi_options ≡ created (client_of (new_client host flaky multi_options))
unfolding new_client apply_client_options default_client_options
multi_created = refl

new_client-StartsAsPool_example :
    StartsAsPool host flaky
      (configured pool_options)
      (client_of (new_client host flaky pool_options))
unfolding apply_client_options default_client_options
new_client-StartsAsPool_example =
    new_client-StartsAsPool host flaky pool_options (client_of (new_client host flaky pool_options))
      pool_created (λ e. cc ((eq_iff "h:1883" "").1 e)) (omega arith)

publish_handler_panics_example :
    (publish_handler
      (client_of (new_client host flaky multi_options))
      context
      flaky
      "t"
      9
      []).outcome
    ≡ panicked
unfolding apply_client_options default_client_options
publish_handler_panics_example =
    publish_handler_panics host flaky multi_options
      (client_of (new_client host flaky multi_options)) context "t" 9 [] (9 ∷ []) multi_created
      (λ e. cc ((eq_iff "h:1883" "").1 e)) refl refl

-- A publish, a lost connection, a shared subscription and an update, and then another publish.
abbrev busy : List Operation
busy =
    starting flaky
    ∷ publishing context flaky "t" 9 []
    ∷ losing left
    ∷ subscribing context flaky "$share/a" 3 (qos 1 ∷ [])
    ∷ updating host (λ i. flaky) flaky 3 (record { host = "h"; port = 1883 } ∷ [])
    ∷ publishing context flaky "t" 9 []
    ∷ []

-- A failing subscription, one of two topics, one that is removed again, a stop and a reload.
abbrev subscribing_often : List Operation
subscribing_often =
    subscribing context flaky "t" 3 (qos 1 ∷ [])
    ∷ subscribing_multiple context flaky (("u", 2) ∷ ("v", 0) ∷ []) 4
    ∷ unsubscribing context flaky ("v" ∷ [])
    ∷ stopping flaky
    ∷ updating host (λ i. flaky) flaky 3 (record { host = "h"; port = 1883 } ∷ [])
    ∷ []

kept-enter_all_example :
    (lookup "u"
        (operate_all subscribing_often
          (client_of (new_client host flaky pool_options))).subscriptions
      ≡ enter_all
          (entries subscribing_often (client_of (new_client host flaky pool_options)))
          (λ k. none)
          "u")
    × (lookup "u" (
          read_subscription_meta
            (operate_all subscribing_often (client_of (new_client host flaky pool_options))))
        ≡ shown
            (enter_all
              (entries subscribing_often (client_of (new_client host flaky pool_options)))
              (λ k. none)
              "u")
            none)
kept-enter_all_example =
    kept-enter_all host flaky pool_options (client_of (new_client host flaky pool_options))
      subscribing_often "u" pool_created (tt, ((refl, (refl, tt)), (tt, (tt, (tt, tt)))))
