-- ===== src/Otel/Counters.antt =====
-- What the middlewares of an OTel count.
use courier_go.Base.{
  suc, str_eq, ◌∙◌, ap, if◌then◌else◌, ℕ, String, none, some, List, [], ◌∷◌, ◌++◌, map, length,
  length-map, ◌≡◌, refl, subst, arith,
}
use courier_go.Libs.{Libs}
use courier_go.Options.{CallOption}
use courier_go.Paho.{Context, Broker}
use courier_go.Client.{Client}
use courier_go.Client.Exec.{Outcome, returned, panicked, Executed}
use courier_go.Client.Handlers.{Publisher, Subscriber, Unsubscriber}
use courier_go.Otel.{
  Recorders, recorders_at, Attribute, service_name, topic, topics, topics_with_qos, TracePath,
  trace_publisher, trace_subscriber, trace_unsubscriber, Otel, measure,
}
use courier_go.Otel.Calls.{
  after_callback, insert_string, sort_strings, map_to_array, multiple_measurements,
  subscribe_multiple_middleware, call_attributes, call_measurement, topic_measurement, Traced,
  finish, with_client_id_callback, publisher_middleware, subscribe_middleware,
  unsubscriber_middleware,
}

length-insert_string :
    (s : String) (ts : List String) → length (insert_string s ts) ≡ suc (length ts)
unfolding insert_string
length-insert_string s [] = refl
length-insert_string s (t ∷ ts) = ground (arith, length-insert_string s ts)

length-sort_strings : (ss : List String) → length (sort_strings ss) ≡ length ss
unfolding sort_strings
length-sort_strings [] = refl
length-sort_strings (s ∷ ss) =
    length-insert_string s (sort_strings ss) ∙ ap suc (length-sort_strings ss)

length-after_callback :
    (with_id : String → List (List Attribute)) (attrs : List (List Attribute)) (ids : List String)
    (n : ℕ)
    → length attrs ≡ n
    → ((id : String) → length (with_id id) ≡ n)
    → length (after_callback with_id attrs ids) ≡ n
unfolding after_callback
length-after_callback with_id attrs [] n h each = h
length-after_callback with_id attrs (id ∷ ids) n h each =
    length-after_callback with_id (if str_eq id "" then attrs else with_id id) ids n
      (ground (arith, h, each id)) each

-- The OTel has recorders for the path.
abbrev pub HasRecorders : Otel → TracePath → Type 0
HasRecorders t path = (r : Recorders) × (recorders_at t.rc path ≡ some r)

module _ ⦃libs : Libs⦄ where
  length-multiple_measurements :
      (t : Otel) (subs : List (String × ℕ)) (ids : List String)
      → length (multiple_measurements t subs ids) ≡ length subs
  unfolding multiple_measurements map_to_array
  length-multiple_measurements t subs ids =
      length-after_callback _ _ ids (length subs) (length-map _ subs)
        (λ id. length-map _ (map_to_array subs) ∙ length-sort_strings _ ∙ length-map _ subs)

  -- The counts of a call with `n` measurements that ended in some way.
  abbrev pub Counts : ℕ → Outcome → Traced → Type 0
  Counts n panicked d = (length d.attempts ≡ 0) × (length d.failures ≡ 0) × (length d.latencies ≡ n)
  Counts n (returned none) d =
      (length d.attempts ≡ n) × (length d.failures ≡ 0) × (length d.latencies ≡ n)
  Counts n (returned (some e)) d =
      (length d.attempts ≡ n) × (d.failures ≡ d.attempts) × (length d.latencies ≡ n)

  finish-Counts :
      (t : Otel) (path : TracePath) (span : List Attribute) (attrs : List (List Attribute))
      (e : Executed) (o : Outcome)
      → e.outcome ≡ o
      → HasRecorders t path
      → Counts (length attrs) o (finish t path span attrs e)
  unfolding finish measure
  finish-Counts t path span attrs e panicked out (r, traced) = ground (arith, out, traced)
  finish-Counts t path span attrs e (returned none) out (r, traced) = ground (arith, out, traced)
  finish-Counts t path span attrs e (returned (some err)) out (r, traced) =
      ground (arith, out, traced)

  -- With recorders for the path of a middleware, each call is measured by its outcome: a call that returns is one
  -- attempt, and one failure with the same attributes exactly when it returns an error; a call that
  -- panics is neither. The latency is recorded always. A SubscribeMultiple and an Unsubscribe are
  -- measured once for each of their topics.
  pub middlewares-Counts :
      (t : Otel) (instrument : ℕ → ℕ) (p : Publisher) (s : Subscriber) (u : Unsubscriber)
      (c : Client) (ctx : Context) (b : Broker) (on : String) (message : ℕ) (opts : List CallOption)
      (names : List String) (subs : List (String × ℕ))
      → HasRecorders t trace_publisher
      → HasRecorders t trace_subscriber
      → HasRecorders t trace_unsubscriber
      → Counts 1
          (publisher_middleware t p c ctx b on message opts).executed.outcome
          (publisher_middleware t p c ctx b on message opts)
        × Counts 1
            (subscribe_middleware t instrument s c ctx b on message opts).executed.outcome
            (subscribe_middleware t instrument s c ctx b on message opts)
        × Counts
            (length names)
            (unsubscriber_middleware t u c ctx b names).executed.outcome
            (unsubscriber_middleware t u c ctx b names)
        × Counts
            (length subs)
            (subscribe_multiple_middleware t instrument s c ctx b subs message).executed.outcome
            (subscribe_multiple_middleware t instrument s c ctx b subs message)
  unfolding publisher_middleware subscribe_middleware unsubscriber_middleware
      subscribe_multiple_middleware
  middlewares-Counts t instrument p s u c ctx b on message opts names subs is_p is_s is_u =
      let inner = with_client_id_callback ctx in
      let published = p c inner b on message opts in
      let subscribed = s.subscribe c inner b on (instrument message) [] in
      let unsubscribed = u c inner b names in
      let multiple = s.subscribe_multiple c inner b subs (instrument message) in
      let span = call_attributes t opts ++ topic on ∷ [] in
      (
        finish-Counts t trace_publisher span (call_measurement t on opts published.notified ∷ [])
            published _ refl is_p,
        finish-Counts t trace_subscriber span (call_measurement t on opts subscribed.notified ∷ [])
            subscribed _ refl is_s,
        subst (λ n. Counts n unsubscribed.outcome (unsubscriber_middleware t u c ctx b names))
            (length-map (topic_measurement t unsubscribed.notified) names)
            (finish-Counts t trace_unsubscriber
              (service_name t.service ∷ topics names ∷ t.attributes)
              (map (topic_measurement t unsubscribed.notified) names) unsubscribed _ refl is_u),
        subst
            (λ n.
              Counts n multiple.outcome
                (subscribe_multiple_middleware t instrument s c ctx b subs message))
            (length-multiple_measurements t subs multiple.notified)
            (finish-Counts t trace_subscriber
              (service_name t.service ∷ topics_with_qos (map_to_array subs) ∷ t.attributes)
              (multiple_measurements t subs multiple.notified) multiple _ refl is_s),
      )
