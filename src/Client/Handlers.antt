-- ===== src/Client/Handlers.antt =====
-- The handlers at the end of the chains: publishHandler of client_publish.go, subscriberFuncs of
-- client_subscribe.go and unsubscriberHandler of client_unsubscribe.go.
pub mod Lacking
pub mod Shared
pub mod Filter
pub mod Publish
pub mod Lost
use courier_go.Base.{
  ℕ, String, Bool, true, false, ◌||◌, Option, none, some, List, [], ◌∷◌, ◌++◌, ◌==◌, length, insert,
  if◌then◌else◌,
}
use courier_go.ClientOptions.{ClientOptions}
use courier_go.Errors.{
  Error, sentinel, publish_timeout, subscribe_timeout, unsubscribe_timeout,
  subscribe_multiple_timeout,
}
use courier_go.Libs.{Libs}
use courier_go.Options.{CallOption, compose_options}
use courier_go.Paho.{MqttClient, Context, Broker, Encoded, encoded, failed}
use courier_go.Client.{InternalState, Client, handle_token}
use courier_go.Client.Exec.{
  Call, Outcome, returned, panicked, StateResult, ExecOpt, exec_all, exec_one_random,
  exec_one_round_robin, with_state, Executed, fails, reduce_errors, execute,
}

-- filterSubs: the shared and the normal subscriptions, as two maps
filter_from :
    (String → Bool)
    → List (String × ℕ)
    → List (String × ℕ)
    → List (String × ℕ)
    → List (String × ℕ) × List (String × ℕ)
filter_from predicate shared normal [] = (shared, normal)
filter_from predicate shared normal ((topic, q) ∷ rest) =
    filter_from predicate (if predicate topic then insert topic q shared else shared)
      (if predicate topic then normal else insert topic q normal) rest

unfoldable pub filter_subs :
    (String → Bool) → List (String × ℕ) → List (String × ℕ) × List (String × ℕ)
unfolding filter_from
filter_subs predicate topics = filter_from predicate [] [] topics

module _ ⦃libs : Libs⦄ where
  -- PublisherFunc, Subscriber and UnsubscriberFunc: they read the client when they are called.
  abbrev pub Publisher : Type 0
  Publisher = Client → Context → Broker → String → ℕ → List CallOption → Executed

  abbrev pub Unsubscriber : Type 0
  Unsubscriber = Client → Context → Broker → List String → Executed

  pub record Subscriber : Type 0 where
    pub subscribe : Client → Context → Broker → String → ℕ → List CallOption → Executed
    pub subscribe_multiple : Client → Context → Broker → List (String × ℕ) → ℕ → Executed

  publish_bytes : Client → Context → Broker → String → List CallOption → List ℕ → Executed
  publish_bytes c ctx b topic opts bytes =
      let o = compose_options opts in
      execute c ctx b
        (λ cc.
          handle_token ctx (b.publish cc topic o.qos o.retained bytes) (sentinel publish_timeout))
        exec_one_round_robin

  -- publishHandler
  unfoldable pub publish_handler : Publisher
  unfolding publish_bytes fails
  publish_handler c ctx b topic message opts = elim (b.encode c.options.new_encoder message) [
    | failed e ↦ fails c (returned (some e))
    | encoded bytes ↦ publish_bytes c ctx b topic opts bytes
  ]

  called : InternalState → Option Error → InternalState → StateResult
  called s err s' = record { error = err; calls = s.client ∷ []; state = s' }

  -- subscribeOnlyOnce
  unfoldable pub subscribe_only_once : String → Call → InternalState → StateResult
  unfolding called
  subscribe_only_once topic f s =
      if libs.has s.subs_called topic
      then record { error = none; calls = []; state = s }
      else elim (f s.client) [
        | none ↦ called s none (record s { subs_called = libs.add s.subs_called topic })
        | some e ↦ called s (some e) s
      ]

  -- removeSubsFromState
  unfoldable pub remove_subs_from_state : List String → Call → InternalState → StateResult
  unfolding called
  remove_subs_from_state topics f s = elim (f s.client) [
    | none ↦ called s none (record s { subs_called = libs.delete s.subs_called topics })
    | some e ↦ called s (some e) s
  ]

  -- the first function of subscriberFuncs
  unfoldable pub subscribe_handler :
      Client → Context → Broker → String → ℕ → List CallOption → Executed
  subscribe_handler c ctx b topic callback opts =
      let o = compose_options opts in
      let eo =
        if c.options.shared_subscription_predicate topic
        then with_state (subscribe_only_once topic)
        else exec_one_random in
      execute c ctx b
        (λ cc. handle_token ctx (b.subscribe cc topic o.qos) (sentinel subscribe_timeout)) eo

  multiple : Client → Context → Broker → List (String × ℕ) → ExecOpt → Executed
  multiple c ctx b subs eo =
      execute c ctx b
        (λ cc.
          handle_token ctx (b.subscribe_multiple cc subs) (sentinel subscribe_multiple_timeout))
        eo

  -- the `execs` of the second function of subscriberFuncs
  multiple_execs :
      Context → Broker → List (String × ℕ) → List (String × ℕ) → List (Client → Executed)
  unfolding multiple
  multiple_execs ctx b shared normal =
      (if length shared == 0 then [] else (λ c. multiple c ctx b shared exec_all) ∷ [])
      ++ (if length normal == 0 then [] else (λ c. multiple c ctx b normal exec_one_random) ∷ [])

  unfoldable pub join_outcome :
      Outcome → Option (List (Option Error)) → Option (List (Option Error))
  join_outcome panicked errs = none
  join_outcome (returned err) none = none
  join_outcome (returned err) (some errs) = some (err ∷ errs)

  -- The results of several executes; `none` if one panicked, which ends the process.
  unfoldable pub errors_of : List Executed → Option (List (Option Error))
  unfolding join_outcome
  errors_of [] = some []
  errors_of (e ∷ es) = join_outcome e.outcome (errors_of es)

  calls_of : List Executed → List MqttClient
  calls_of [] = []
  calls_of (e ∷ es) = e.calls ++ calls_of es

  notified_of : List Executed → List String
  notified_of [] = []
  notified_of (e ∷ es) = e.notified ++ notified_of es

  -- slice.Reduce of slice.MapConcurrentWithContext over executes that leave the client as it was
  unfoldable pub join : Client → List Executed → Executed
  unfolding errors_of calls_of notified_of
  join c es = record {
    client = c;
    calls = calls_of es;
    notified = notified_of es;
    outcome = elim (errors_of es) [ none ↦ panicked | some errs ↦ returned (reduce_errors errs) ];
  }

  -- the second function of subscriberFuncs
  unfoldable pub subscribe_multiple_handler :
      Client → Context → Broker → List (String × ℕ) → ℕ → Executed
  unfolding multiple_execs join filter_subs
  subscribe_multiple_handler c ctx b topics callback =
      let (shared, normal) = filter_subs c.options.shared_subscription_predicate topics in
      join c
        (libs.map_concurrent (λ (g : Client → Executed). g c) (multiple_execs ctx b shared normal))

  -- subscriberFuncs
  unfoldable pub subscriber_funcs : Subscriber
  unfolding subscribe_handler subscribe_multiple_handler
  subscriber_funcs = record {
    subscribe = subscribe_handler;
    subscribe_multiple = subscribe_multiple_handler;
  }

  -- unsubscriberHandler
  unfoldable pub unsubscriber_handler : Unsubscriber
  unfolding remove_subs_from_state
  unsubscriber_handler c ctx b topics =
      execute c ctx b
        (λ cc. handle_token ctx (b.unsubscribe cc topics) (sentinel unsubscribe_timeout))
        (with_state (remove_subs_from_state topics))
