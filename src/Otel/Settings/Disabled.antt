-- ===== src/Otel/Settings/Disabled.antt =====
-- The paths that options disable.
use courier_go.Base.{Bool, true, false, not, ◌&&◌, ◌||◌, List, [], ◌∷◌, ◌≡◌, ap, ◌∙◌, arith}
use courier_go.Otel.{
  TracePath, trace_publisher, trace_subscriber, trace_unsubscriber, trace_callback, TracePaths,
  match, disable,
}
use courier_go.Otel.Settings.{
  Boundaries, OtelOption, with_tracer_provider, with_meter_provider, with_text_map_propagator,
  with_text_map_carrier_extract_func, with_info_handler_from, with_attributes, disable_tracing,
  topic_attribute_transformer, bucket_boundaries, OtelOptions, apply_otels, apply_boundaries,
}

-- The path of an option is this one.
abbrev pub same_path : TracePath → TracePath → Bool
same_path trace_publisher trace_publisher = true
same_path trace_subscriber trace_subscriber = true
same_path trace_unsubscriber trace_unsubscriber = true
same_path trace_callback trace_callback = true
same_path p q = false

-- One of the options disables the path.
abbrev pub disables : List OtelOption → TracePath → Bool
disables [] path = false
disables (disable_tracing p ∷ opts) path = same_path p path || disables opts path
disables (opt ∷ opts) path = disables opts path

match-disable :
    (p path : TracePath) (tp : TracePaths)
    → match (disable p tp) path ≡ (match tp path && not (same_path p path))
unfolding match disable
match-disable trace_publisher path tp = ground arith
match-disable trace_subscriber path tp = ground arith
match-disable trace_unsubscriber path tp = ground arith
match-disable trace_callback path tp = ground arith

and_not_or : (a b c : Bool) → ((a && not b) && not c) ≡ (a && not (b || c))
and_not_or a b c = ground arith

pub match-apply_otels :
    (opts : List OtelOption) (o : OtelOptions) (m : Boundaries) (path : TracePath)
    → match (apply_otels opts (o, m)).0.trace_paths path
      ≡ (match o.trace_paths path && not (disables opts path))
unfolding apply_otels
match-apply_otels [] o m path = ground arith
match-apply_otels (with_tracer_provider p ∷ opts) o m path = match-apply_otels opts _ m path
match-apply_otels (with_meter_provider p ∷ opts) o m path = match-apply_otels opts _ m path
match-apply_otels (with_text_map_propagator p ∷ opts) o m path = match-apply_otels opts _ m path
match-apply_otels (with_text_map_carrier_extract_func f ∷ opts) o m path =
    match-apply_otels opts _ m path
match-apply_otels (with_info_handler_from h ∷ opts) o m path = match-apply_otels opts _ m path
match-apply_otels (with_attributes attrs ∷ opts) o m path = match-apply_otels opts _ m path
match-apply_otels (disable_tracing p ∷ opts) o m path =
    match-apply_otels opts (record o { trace_paths = disable p o.trace_paths }) m path
    ∙ ap (λ b. b && not (disables opts path)) (match-disable p path o.trace_paths)
    ∙ and_not_or (match o.trace_paths path) (same_path p path) (disables opts path)
match-apply_otels (topic_attribute_transformer t ∷ opts) o m path = match-apply_otels opts _ m path
match-apply_otels (bucket_boundaries b ∷ opts) o m path =
    match-apply_otels opts o (apply_boundaries b m) path
