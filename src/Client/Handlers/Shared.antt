-- ===== src/Client/Handlers/Shared.antt =====
-- Shared subscriptions: each connection is subscribed once.
use courier_go.Base.{ℕ, String, true, List, ◌≡◌, ap, ◌∙◌, map, str_eq, contains, if◌then◌else◌}
use courier_go.Errors.{sentinel, subscribe_timeout, unsubscribe_timeout}
use courier_go.Errors.Accumulate.{collected, combined}
use courier_go.Libs.{Libs}
use courier_go.Options.{CallOption, compose_options}
use courier_go.Paho.{Context, Broker}
use courier_go.Client.{Client, handle_token}
use courier_go.Client.Exec.{Call, returned, Executed, states, results, run_all}
use courier_go.Client.Exec.Laws.{IsMulti, connections, execute-with_state, reduce_errors-combined}
use courier_go.Client.Handlers.{
  subscribe_only_once, remove_subs_from_state, subscribe_handler, unsubscriber_handler,
}
use courier_go.Client.Handlers.Lacking.{
  lacking, failing, holding, once, calls-once, lacking-once_any, collected-once, removed,
  calls-removed, holding-removed_any, collected-removed, states-write_back,
}

module _ ⦃libs : Libs⦄ where
  -- The call that subscribes one connection to a topic.
  abbrev pub subscribe_call : Context → Broker → String → List CallOption → Call
  subscribe_call ctx b topic opts cc =
      handle_token ctx (b.subscribe cc topic (compose_options opts).qos)
        (sentinel subscribe_timeout)

  -- What a shared subscription does to the connections of a client.
  pub record SubscribesLacking (c : Client) (f : Call) (topic : String) (e : Executed)
      : Type 0 where
    pub calls : e.calls ≡ lacking topic (states c.mqtt_clients)
    pub outcome :
        e.outcome ≡ returned (combined (collected (map f (lacking topic (states c.mqtt_clients)))))
    pub still_lacking :
        (any : String)
        → lacking any (states e.client.mqtt_clients) ≡ (
            if str_eq topic any
            then failing f (lacking topic (states c.mqtt_clients))
            else lacking any (states c.mqtt_clients))

  -- With several connections, subscribing to a shared topic calls paho on exactly the connections
  -- that are not subscribed to it yet, and returns the combination of their errors; the
  -- connections that lack it afterwards are exactly those whose call failed, so that a second
  -- subscribe retries these alone. What the connections hold of other topics stays.
  pub subscribe_handler_shared :
      (c : Client) (ctx : Context) (b : Broker) (topic : String) (callback : ℕ)
      (opts : List CallOption)
      → IsMulti c
      → c.options.shared_subscription_predicate topic ≡ true
      → SubscribesLacking c
          (subscribe_call ctx b topic opts)
          topic
          (subscribe_handler c ctx b topic callback opts)
  unfolding subscribe_handler run_all
  subscribe_handler_shared c ctx b topic callback opts h shared =
      let f = subscribe_call ctx b topic opts in
      let ss = states c.mqtt_clients in
      let after = states-write_back (subscribe_only_once topic f) c.mqtt_clients in
      rw (shared, execute-with_state c ctx b f (subscribe_only_once topic) h)
        (record {
          calls = calls-once topic f ss;
          outcome = ap returned (
              reduce_errors-combined (results (once topic f ss))
              ∙ ap combined (collected-once topic f ss));
          still_lacking = λ any. ap (lacking any) after ∙ lacking-once_any topic f any ss;
        })

  -- The call that unsubscribes one connection.
  abbrev pub unsubscribe_call : Context → Broker → List String → Call
  unsubscribe_call ctx b topics cc =
      handle_token ctx (b.unsubscribe cc topics) (sentinel unsubscribe_timeout)

  -- What an unsubscribe does to the connections of a client.
  pub record Unsubscribes (c : Client) (f : Call) (topics : List String) (e : Executed)
      : Type 0 where
    pub calls : e.calls ≡ connections c
    pub outcome : e.outcome ≡ returned (combined (collected (map f (connections c))))
    pub still_holding :
        (topic : String)
        → holding topic (states e.client.mqtt_clients) ≡ (
            if contains topics topic
            then failing f (holding topic (states c.mqtt_clients))
            else holding topic (states c.mqtt_clients))

  -- With several connections, unsubscribing calls paho on every connection and returns the
  -- combination of their errors; a connection still holds one of the topics afterwards exactly if
  -- it held it and its call failed. What the connections hold of other topics stays.
  pub unsubscriber_handler_all :
      (c : Client) (ctx : Context) (b : Broker) (topics : List String)
      → IsMulti c
      → Unsubscribes c (unsubscribe_call ctx b topics) topics (unsubscriber_handler c ctx b topics)
  unfolding unsubscriber_handler run_all
  unsubscriber_handler_all c ctx b topics h =
      let f = unsubscribe_call ctx b topics in
      let ss = states c.mqtt_clients in
      let after = states-write_back (remove_subs_from_state topics f) c.mqtt_clients in
      rw (execute-with_state c ctx b f (remove_subs_from_state topics) h) (record {
        calls = calls-removed topics f ss;
        outcome = ap returned (
            reduce_errors-combined (results (removed topics f ss))
            ∙ ap combined (collected-removed topics f ss));
        still_holding = λ topic. ap (holding topic) after ∙ holding-removed_any topics f topic ss;
      })
