-- ===== src/Otel/Calls.antt =====
-- otelcourier: the middlewares around the calls of a client (publish.go, subscribe.go and
-- unsubscribe.go).
use Prim.Native.String.{compare}
use text.Mathlib.Text.{is_lt}
use courier_go.Base.{
  ℕ, String, Bool, true, false, Option, none, some, List, [], ◌∷◌, ◌++◌, map, concat, decimal,
  str_eq, if◌then◌else◌,
}
use courier_go.Otel.{
  TracePath, trace_publisher, trace_subscriber, trace_unsubscriber, Attribute, service_name, topic,
  client_id, qos, retained, topics, topics_with_qos, Otel, measure,
}
use courier_go.Errors.{Error}
use courier_go.Libs.{Libs}
use courier_go.Options.{CallOption}
use courier_go.Paho.{Context, Broker}
use courier_go.Client.{Client}
use courier_go.Client.Exec.{Outcome, returned, panicked, Executed}
use courier_go.Client.Handlers.{Publisher, Subscriber, Unsubscriber}

-- mapAttributes
unfoldable pub map_attributes : List CallOption → List Attribute
map_attributes [] = []
map_attributes (CallOption.qos q ∷ opts) = qos q ∷ map_attributes opts
map_attributes (CallOption.retained r ∷ opts) = retained r ∷ map_attributes opts

-- The attributes of the measurements after the client ID callback ran for some IDs: each that is
-- not empty replaces them.
unfoldable pub after_callback {ℓ} : {A : Type ℓ} → (String → A) → A → List String → A
after_callback with_id attrs [] = attrs
after_callback with_id attrs (id ∷ ids) =
    after_callback with_id (if str_eq id "" then attrs else with_id id) ids

unfoldable pub insert_string : String → List String → List String
insert_string s [] = s ∷ []
insert_string s (t ∷ ts) =
    let rest = insert_string s ts in if is_lt (compare t s) then t ∷ rest else s ∷ t ∷ ts

-- sort.Strings
unfoldable pub sort_strings : List String → List String
unfolding insert_string
sort_strings [] = []
sort_strings (s ∷ ss) = insert_string s (sort_strings ss)

-- mapToArray
unfoldable pub map_to_array : List (String × ℕ) → List String
unfolding sort_strings decimal
map_to_array subs =
    sort_strings (map (λ p. concat p.0 (concat " | qos[" (concat (decimal p.1) "]"))) subs)

-- The error of a call that returned one.
abbrev pub error_of : Outcome → Option Error
error_of panicked = none
error_of (returned err) = err

abbrev pub has_returned : Outcome → Bool
has_returned panicked = false
has_returned (returned err) = true

module _ ⦃libs : Libs⦄ where
  -- A call through a middleware: what it did, the attributes of the measurements that it recorded,
  -- and its span.
  pub record Traced : Type 0 where
    pub executed : Executed
    pub attempts : List (List Attribute)
    pub failures : List (List Attribute)
    pub latencies : List (List Attribute)
    pub span : List Attribute
    pub span_error : Option Error

  -- The end of each middleware, after the inner call: `attrs` has one entry for each measurement.
  -- Its ClientIDCallback has replaced the one of the context. After a panic only the deferred
  -- latency is recorded.
  unfoldable pub finish :
      Otel → TracePath → List Attribute → List (List Attribute) → Executed → Traced
  unfolding measure
  finish t path span attrs e = record {
    executed = record e { notified = [] };
    attempts = if has_returned e.outcome then measure t path attrs else [];
    failures = elim (error_of e.outcome) [ none ↦ [] | some err ↦ measure t path attrs ];
    latencies = measure t path attrs;
    span = span;
    span_error = error_of e.outcome;
  }

  -- courier.WithClientIDCallback
  abbrev pub with_client_id_callback : Context → Context
  with_client_id_callback ctx = record ctx { client_id_callback = true }

  -- The attributes of one call, and of its measurements.
  unfoldable pub call_attributes : Otel → List CallOption → List Attribute
  unfolding map_attributes
  call_attributes t opts = service_name t.service ∷ map_attributes opts ++ t.attributes

  unfoldable pub call_measurement : Otel → String → List CallOption → List String → List Attribute
  unfolding call_attributes after_callback
  call_measurement t on opts ids =
      let attrs = call_attributes t opts in
      let name = t.topic_transformer on in
      after_callback (λ id. attrs ++ topic name ∷ client_id id ∷ []) (attrs ++ topic name ∷ []) ids

  -- PublisherMiddleware
  unfoldable pub publisher_middleware :
      Otel → Publisher → Client → Context → Broker → String → ℕ → List CallOption → Traced
  unfolding finish call_attributes call_measurement
  publisher_middleware t inner c ctx b on message opts =
      let e = inner c (with_client_id_callback ctx) b on message opts in
      finish t trace_publisher (call_attributes t opts ++ topic on ∷ [])
        (call_measurement t on opts e.notified ∷ []) e

  -- subscribeHandler: the inner call has no options. The callback is instrumented.
  unfoldable pub subscribe_middleware :
      Otel
      → (ℕ → ℕ)
      → Subscriber
      → Client
      → Context
      → Broker
      → String
      → ℕ
      → List CallOption
      → Traced
  unfolding finish call_attributes call_measurement
  subscribe_middleware t instrument inner c ctx b on callback opts =
      let e = inner.subscribe c (with_client_id_callback ctx) b on (instrument callback) [] in
      finish t trace_subscriber (call_attributes t opts ++ topic on ∷ [])
        (call_measurement t on opts e.notified ∷ []) e

  -- The measurements of a SubscribeMultiple: one for each topic, in the order of the map; the
  -- callback replaces them by the entries of mapToArray.
  unfoldable pub multiple_measurements :
      Otel → List (String × ℕ) → List String → List (List Attribute)
  unfolding after_callback map_to_array
  multiple_measurements t subs ids =
      after_callback
        (λ id.
          map
            (λ on.
              service_name t.service ∷ topic (t.topic_transformer on) ∷ client_id id ∷ t.attributes)
            (map_to_array subs))
        (map
          (λ p. service_name t.service ∷ topic (t.topic_transformer p.0) ∷ qos p.1 ∷ t.attributes)
          subs)
        ids

  -- subscribeMultipleHandler
  unfoldable pub subscribe_multiple_middleware :
      Otel → (ℕ → ℕ) → Subscriber → Client → Context → Broker → List (String × ℕ) → ℕ → Traced
  unfolding finish multiple_measurements map_to_array
  subscribe_multiple_middleware t instrument inner c ctx b subs callback =
      let e =
        inner.subscribe_multiple c (with_client_id_callback ctx) b subs (instrument callback) in
      finish t trace_subscriber
        (service_name t.service ∷ topics_with_qos (map_to_array subs) ∷ t.attributes)
        (multiple_measurements t subs e.notified) e

  -- The measurements of an Unsubscribe, one for each topic.
  unfoldable pub topic_measurement : Otel → List String → String → List Attribute
  unfolding after_callback
  topic_measurement t ids on =
      let name = topic (t.topic_transformer on) in
      after_callback (λ id. service_name t.service ∷ name ∷ client_id id ∷ t.attributes)
        (service_name t.service ∷ name ∷ t.attributes) ids

  -- UnsubscriberMiddleware
  unfoldable pub unsubscriber_middleware :
      Otel → Unsubscriber → Client → Context → Broker → List String → Traced
  unfolding finish topic_measurement
  unsubscriber_middleware t inner c ctx b names =
      let e = inner c (with_client_id_callback ctx) b names in
      finish t trace_unsubscriber (service_name t.service ∷ topics names ∷ t.attributes)
        (map (topic_measurement t e.notified) names) e
