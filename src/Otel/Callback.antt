-- ===== src/Otel/Callback.antt =====
-- instrumentCallback of otelcourier/subscribe.go.
pub mod Measured
use courier_go.Base.{
  ℕ, String, Bool, true, false, not, ◌&&◌, Option, none, some, List, [], ◌∷◌, ◌++◌, concat, str_eq,
  length, if◌then◌else◌, Bool-cases, Option-cases, inl, inr, ◌≡◌, refl, arith,
}
use courier_go.Libs.{Libs}
use courier_go.ClientOptions.{Decoder}
use courier_go.Paho.{MqttClient}
use courier_go.Client.{Client}
use courier_go.Client.Delivery.{
  DeliveryContext, client_id_from_context, Message, PahoMessage, callback_wrapper, with_client_id,
  new_message_with_decoder, empty_context,
}
use courier_go.Errors.{Error}
use courier_go.Otel.Setup.{Meter, made, new_otel}
use courier_go.Otel.Settings.{Globals, OtelOption}
use courier_go.Otel.Setup.Recording.{visits, new_otel-made_records}
use courier_go.Otel.Settings.Disabled.{disables}
use courier_go.Otel.{
  TracePath, trace_callback, Attribute, service_name, topic, client_id, qos, retained,
  code_namespace, code_function, match, measure, recorders_at, Recorders, Otel,
}

-- What a MessageHandler does: whether it panics, and whether it sets the span of its context to
-- codes.Error.
pub record Handled : Type 0 where
  pub panicked : Bool
  pub marks_error : Bool

-- The named groups of runtimeCallbackExtractor in the name of a function.
pub record FunctionName : Type 0 where
  pub module_name : String
  pub package_name : String
  pub function_name : String

span_name : Option FunctionName → String
span_name none = "UnknownSubscribeCallback"
span_name (some n) = n.function_name

unfoldable pub package_path : Option FunctionName → String
package_path none = "Unknown"
package_path (some n) = concat n.module_name (concat "/" n.package_name)

unfoldable pub code_name : Option FunctionName → String
code_name none = "UnknownFunc"
code_name (some n) = n.function_name

module _ (D : Type 0) where
  -- A MessageHandler
  abbrev pub MessageHandler : Type 0
  MessageHandler = DeliveryContext → Message D → Handled

  -- A delivery: what the handler was called with, what it did, the measurements, and the span.
  pub record Delivered : Type 0 where
    pub given : List (DeliveryContext × Message D)
    pub handled : Handled
    pub attempts : List (List Attribute)
    pub failures : List (List Attribute)
    pub latencies : List (List Attribute)
    pub span : Option (List Attribute)

-- The context that the handler is given: the propagator has extracted into it if there is a
-- function that makes a carrier, and the tracer has started a span in it.
unfoldable pub traced_context : Otel → Option FunctionName → DeliveryContext → DeliveryContext
unfolding span_name
traced_context t name ctx =
    let extracted = if t.text_map_carrier_func then record ctx { extracted = true } else ctx in
    record extracted { span = some (span_name name) }

module _ {D : Type 0} where
  -- A delivery to a handler itself.
  unfoldable pub deliver : MessageHandler D → DeliveryContext → Message D → Delivered D
  deliver handler ctx msg = record {
    given = (ctx, msg) ∷ [];
    handled = handler ctx msg;
    attempts = [];
    failures = [];
    latencies = [];
    span = none;
  }

  -- attrs
  unfoldable pub delivery_attributes :
      Otel → Option FunctionName → DeliveryContext → Message D → List Attribute
  unfolding client_id_from_context package_path code_name
  delivery_attributes t name ctx msg =
      let id = client_id_from_context ctx in
      let base =
        service_name t.service
        ∷ code_namespace (package_path name)
        ∷ code_function (code_name name)
        ∷ qos msg.qos
        ∷ retained msg.retained
        ∷ t.attributes in
      if str_eq id "" then base else base ++ client_id id ∷ []

  -- instrumentCallback; `sdk_span` tells whether the spans of the tracer are a ReadOnlySpan. Only
  -- what a handler that returns has done to the status of its span is looked at.
  unfoldable pub instrument_callback :
      Otel
      → Bool
      → Option FunctionName
      → MessageHandler D
      → DeliveryContext
      → Message D
      → Delivered D
  unfolding match deliver delivery_attributes traced_context measure
  instrument_callback t sdk_span name handler ctx msg =
      let attrs = delivery_attributes t name ctx msg in
      let metric_attrs = attrs ++ topic (t.topic_transformer msg.topic) ∷ [] in
      let inner = traced_context t name ctx in
      let done = handler inner msg in
      if not (match t.trace_paths trace_callback) then deliver handler ctx msg else record {
        given = (inner, msg) ∷ [];
        handled = done;
        attempts = measure t trace_callback (metric_attrs ∷ []);
        failures =
            if not done.panicked && (sdk_span && done.marks_error)
            then measure t trace_callback (metric_attrs ∷ [])
            else [];
        latencies = measure t trace_callback (metric_attrs ∷ []);
        span = some (attrs ++ topic msg.topic ∷ []);
      }
