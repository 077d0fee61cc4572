-- ===== src/Otel/Applied.antt =====
-- ApplyMiddlewares of otelcourier/otel.go, and initCourierConfig of metric.go.
use courier_go.Base.{ℕ, String, Option, none, some, [], ◌∷◌, if◌then◌else◌}
use courier_go.Libs.{Libs}
use courier_go.Middleware.{Chain, use_middleware, new_chain}
use courier_go.Client.{Client}
use courier_go.Client.Handlers.{
  Publisher, Subscriber, Unsubscriber, publish_handler, subscriber_funcs, unsubscriber_handler,
}
use courier_go.Otel.{trace_publisher, trace_subscriber, trace_unsubscriber, match, Otel}
use courier_go.Otel.Calls.{
  publisher_middleware, subscribe_middleware, subscribe_multiple_middleware,
  unsubscriber_middleware,
}
use courier_go.Otel.Setup.{Meter}
use courier_go.Otel.Setup.Gauges.{CourierConfig, Registered, setup_courier_metrics}

module _ ⦃libs : Libs⦄ where
  -- The middlewares as functions of handlers, without what they measure.
  abbrev pub as_publisher : Otel → Publisher → Publisher
  as_publisher t inner c ctx b topic message opts =
      (publisher_middleware t inner c ctx b topic message opts).executed

  -- SubscriberMiddleware
  abbrev pub as_subscriber : Otel → (ℕ → ℕ) → Subscriber → Subscriber
  as_subscriber t instrument inner = record {
    subscribe = λ c ctx b topic callback opts.
        (subscribe_middleware t instrument inner c ctx b topic callback opts).executed;
    subscribe_multiple = λ c ctx b topics callback.
        (subscribe_multiple_middleware t instrument inner c ctx b topics callback).executed;
  }

  abbrev pub as_unsubscriber : Otel → Unsubscriber → Unsubscriber
  as_unsubscriber t inner c ctx b topics = (unsubscriber_middleware t inner c ctx b topics).executed

  -- What a UseMiddleware instance has installed; `stopped_by` is the OTel whose StopMiddleware is
  -- around its stop.
  pub record Chains : Type 0 where
    pub publisher : Chain Publisher
    pub subscriber : Chain Subscriber
    pub unsubscriber : Chain Unsubscriber
    pub stopped_by : Option Otel

  -- The chains of a client that NewClient has made.
  abbrev pub new_chains : Chains
  new_chains = record {
    publisher = new_chain publish_handler;
    subscriber = new_chain subscriber_funcs;
    unsubscriber = new_chain unsubscriber_handler;
    stopped_by = none;
  }

  -- The middlewares that ApplyMiddlewares installs.
  unfoldable pub apply_chains : Otel → (ℕ → ℕ) → Chains → Chains
  unfolding match
  apply_chains t instrument c = record {
    publisher =
        if match t.trace_paths trace_publisher
        then use_middleware publish_handler (as_publisher t ∷ []) c.publisher
        else c.publisher;
    subscriber =
        if match t.trace_paths trace_subscriber
        then use_middleware subscriber_funcs (as_subscriber t instrument ∷ []) c.subscriber
        else c.subscriber;
    unsubscriber =
        if match t.trace_paths trace_unsubscriber
        then use_middleware unsubscriber_handler (as_unsubscriber t ∷ []) c.unsubscriber
        else c.unsubscriber;
    stopped_by = if t.info_handler then some t else c.stopped_by;
  }

  -- initCourierConfig: nothing for an instance that is no CourierConfig
  unfoldable pub init_courier_config : Meter → Otel → String → Option CourierConfig → Registered
  unfolding setup_courier_metrics
  init_courier_config m t vsn none = record { gauges = []; panic = none }
  init_courier_config m t vsn (some cfg) = setup_courier_metrics m t vsn cfg

  -- ApplyMiddlewares
  unfoldable pub apply_middlewares :
      Meter → Otel → (ℕ → ℕ) → String → Option CourierConfig → Chains → Chains × Registered
  unfolding apply_chains init_courier_config
  apply_middlewares m t instrument vsn cfg c =
      (apply_chains t instrument c, init_courier_config m t vsn cfg)
