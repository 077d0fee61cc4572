-- ===== src/Otel/Settings.antt =====
-- otelcourier/options.go: the settings of an OTel. A number stands for each provider, propagator,
-- function and handler.
pub mod Disabled
use courier_go.Base.{
  ℕ, String, Bool, true, false, Option, none, some, List, [], ◌∷◌, concat, or_else, if◌then◌else◌,
}
use courier_go.Errors.{Error}
use courier_go.Otel.{
  TracePath, trace_publisher, trace_subscriber, trace_unsubscriber, trace_callback, TracePaths,
  match, disable, Attribute, Recorders, Recorder, Otel,
}

-- map[tracePath][]float64
pub record Boundaries : Type 0 where
  pub publisher : List ℕ
  pub subscriber : List ℕ
  pub unsubscriber : List ℕ
  pub callback : List ℕ

unfoldable pub boundaries_at : Boundaries → TracePath → List ℕ
boundaries_at b trace_publisher = b.publisher
boundaries_at b trace_subscriber = b.subscriber
boundaries_at b trace_unsubscriber = b.unsubscriber
boundaries_at b trace_callback = b.callback

-- BucketBoundaries; a nil slice is `none`
pub record BucketBoundaries : Type 0 where
  pub publisher : Option (List ℕ)
  pub subscriber : Option (List ℕ)
  pub unsubscriber : Option (List ℕ)
  pub callback : Option (List ℕ)

-- Option, by the function that makes it
pub data OtelOption : Type 0 where
  with_tracer_provider with_meter_provider with_text_map_propagator : ℕ → OtelOption
  with_text_map_carrier_extract_func with_info_handler_from : Option ℕ → OtelOption
  with_attributes : List Attribute → OtelOption
  disable_tracing : TracePath → OtelOption
  topic_attribute_transformer : (String → String) → OtelOption
  bucket_boundaries : BucketBoundaries → OtelOption

-- options without histogramBoundaries, which is the map defBucketBoundaries itself
pub record OtelOptions : Type 0 where
  pub tracer_provider : ℕ
  pub meter_provider : ℕ
  pub propagator : ℕ
  pub text_map_carrier_extractor : Option ℕ
  pub trace_paths : TracePaths
  pub topic_transformer : String → String
  pub info_handler : Option ℕ
  pub attributes : List Attribute

-- What the process shares: the global providers of otel, and defBucketBoundaries.
pub record Globals : Type 0 where
  pub tracer_provider : ℕ
  pub meter_provider : ℕ
  pub propagator : ℕ
  pub def_bucket_boundaries : Boundaries

-- defaultOptions
unfoldable pub default_options : Globals → OtelOptions
default_options g = record {
  tracer_provider = g.tracer_provider;
  meter_provider = g.meter_provider;
  propagator = g.propagator;
  text_map_carrier_extractor = none;
  trace_paths = record {
    publisher = true;
    subscriber = true;
    unsubscriber = true;
    callback = true;
  };
  topic_transformer = λ topic. topic;
  info_handler = none;
  attributes = [];
}

-- BucketBoundaries.apply
unfoldable pub apply_boundaries : BucketBoundaries → Boundaries → Boundaries
apply_boundaries b m = record {
  publisher = or_else b.publisher m.publisher;
  subscriber = or_else b.subscriber m.subscriber;
  unsubscriber = or_else b.unsubscriber m.unsubscriber;
  callback = or_else b.callback m.callback;
}

-- Option.apply: the options, and what it writes to the shared map
apply_otel : OtelOption → OtelOptions × Boundaries → OtelOptions × Boundaries
unfolding apply_boundaries disable
apply_otel (with_tracer_provider p) (o, m) = (record o { tracer_provider = p }, m)
apply_otel (with_meter_provider p) (o, m) = (record o { meter_provider = p }, m)
apply_otel (with_text_map_propagator p) (o, m) = (record o { propagator = p }, m)
apply_otel (with_text_map_carrier_extract_func f) (o, m) =
    (record o { text_map_carrier_extractor = f }, m)
apply_otel (with_info_handler_from h) (o, m) = (record o { info_handler = h }, m)
apply_otel (with_attributes attrs) (o, m) = (record o { attributes = attrs }, m)
apply_otel (disable_tracing path) (o, m) =
    (record o { trace_paths = disable path o.trace_paths }, m)
apply_otel (topic_attribute_transformer t) (o, m) = (record o { topic_transformer = t }, m)
apply_otel (bucket_boundaries b) (o, m) = (o, apply_boundaries b m)

unfoldable pub apply_otels : List OtelOption → OtelOptions × Boundaries → OtelOptions × Boundaries
unfolding apply_otel
apply_otels [] om = om
apply_otels (opt ∷ opts) om = apply_otels opts (apply_otel opt om)
