-- ===== src/Otel/Setup.antt =====
-- New of otelcourier/otel.go, and the creation of instruments in metric.go. metric.Meter is the
-- environment: whether it refuses an instrument or a callback.
pub mod Returned
pub mod Recording
pub mod Gauges
use courier_go.Base.{
  ℕ, String, Bool, true, false, Option, none, some, List, [], ◌∷◌, concat, or_else, if◌then◌else◌,
}
use courier_go.Errors.{Error}
use courier_go.Otel.{
  TracePath, trace_publisher, trace_subscriber, trace_unsubscriber, trace_callback, TracePaths,
  match, disable, Attribute, Recorders, Recorder, Otel,
}
use courier_go.Otel.Settings.{
  Boundaries, boundaries_at, BucketBoundaries, OtelOption, OtelOptions, Globals, default_options,
  apply_boundaries, apply_otels, with_tracer_provider, with_meter_provider,
  with_text_map_propagator, with_text_map_carrier_extract_func, with_info_handler_from,
  with_attributes, disable_tracing, topic_attribute_transformer, bucket_boundaries,
}

-- The errors of a meter, at the names of the instruments.
pub record Meter : Type 0 where
  pub counter : String → Option Error
  pub histogram : String → List ℕ → Option Error
  pub up_down_counter : String → Option Error
  pub gauge : String → Option Error
  pub register_callback : String → Option Error

-- A value, or panic(err).
pub data Made (A : Type 0) : Type 0 where
  made : A → Made A
  panics : Error → Made A

infixl 5 ◌>>=◌
abbrev pub ◌>>=◌ : {A B : Type 0} → Made A → (A → Made B) → Made B
made a >>= f = f a
panics e >>= f = panics e

-- if err != nil { panic(err) }
abbrev pub unless_error : {A : Type 0} → Option Error → A → Made A
unless_error none a = made a
unless_error (some e) a = panics e

-- metricFlows
pub flow : TracePath → String
flow trace_publisher = "publish"
flow trace_subscriber = "subscribe"
flow trace_unsubscriber = "unsubscribe"
flow trace_callback = "subscribe.callback"

-- The name of an instrument of a flow.
metric_name : String → String → String
metric_name flow_name suffix = concat "courier." (concat flow_name suffix)

-- newRecorder
new_recorder : Meter → String → List ℕ → Made Recorders
unfolding metric_name
new_recorder m name boundaries = do
  attempts ← unless_error (m.counter (metric_name name ".attempts")) (metric_name name ".attempts")
  failures ← unless_error (m.counter (metric_name name ".failures")) (metric_name name ".failures")
  latency ←
      unless_error (m.histogram (metric_name name ".latency") boundaries)
        (metric_name name ".latency")
  made (record {
    attempts = attempts;
    failures = failures;
    latency = latency;
    boundaries = boundaries;
  })

-- make(recorder)
abbrev pub no_recorders : Recorder
no_recorders = record { publisher = none; subscriber = none; unsubscriber = none; callback = none }

-- t.rc[path] = rs
set_recorders : TracePath → Recorders → Recorder → Recorder
set_recorders trace_publisher rs r = record r { publisher = some rs }
set_recorders trace_subscriber rs r = record r { subscriber = some rs }
set_recorders trace_unsubscriber rs r = record r { unsubscriber = some rs }
set_recorders trace_callback rs r = record r { callback = some rs }

-- One round of the loop of initRecorders.
record_path : Meter → TracePaths → Boundaries → TracePath → Recorder → Made Recorder
unfolding match boundaries_at flow
record_path m tp bs path r =
    if match tp path
    then (new_recorder m (flow path) (boundaries_at bs path) >>= λ rs.
        made (set_recorders path rs r))
    else made r

-- The loop of initRecorders, over metricFlows in its iteration order.
record_paths : Meter → TracePaths → Boundaries → List TracePath → Recorder → Made Recorder
unfolding record_path
record_paths m tp bs [] r = made r
record_paths m tp bs (path ∷ paths) r = record_path m tp bs path r >>= record_paths m tp bs paths

-- initInfoHandler: the registration, by the error that its Unregister returns; `id` is the time
init_info_handler : Meter → String → Option Error → Option ℕ → Made (Option (Option Error))
init_info_handler m id unregister none = made none
init_info_handler m id unregister (some h) = do
  let name = concat "courier.mqtt." (concat id ".connected")
  observable ← unless_error (m.up_down_counter name) name
  unless_error (m.register_callback observable) (some unregister)

is_some : Option ℕ → Bool
is_some none = false
is_some (some n) = true

-- New, with initRecorders at its end: what it returns, and defBucketBoundaries afterwards
unfoldable pub new_otel :
    Globals
    → Meter
    → List TracePath
    → String
    → Option Error
    → String
    → List OtelOption
    → Made Otel × Boundaries
unfolding default_options apply_otels record_paths new_recorder set_recorders init_info_handler
    is_some
new_otel g m paths id unregister service opts =
    let (o, bs) = apply_otels opts (default_options g, g.def_bucket_boundaries) in
    (
      record_paths m o.trace_paths bs paths no_recorders >>= λ rc.
          init_info_handler m id unregister o.info_handler >>= λ registration. made (record {
            service = service;
            trace_paths = o.trace_paths;
            topic_transformer = o.topic_transformer;
            attributes = o.attributes;
            info_handler = is_some o.info_handler;
            text_map_carrier_func = is_some o.text_map_carrier_extractor;
            rc = rc;
            registration = registration;
          }),
      bs,
    )
