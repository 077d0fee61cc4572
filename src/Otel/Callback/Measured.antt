-- ===== src/Otel/Callback/Measured.antt =====
-- What becomes of a message that paho delivers to a handler behind an OTel.
use courier_go.Base.{
  ℕ, String, Bool, true, false, not, ◌&&◌, Option, none, some, List, [], ◌∷◌, ◌++◌, str_eq,
  if◌then◌else◌, ◌≡◌, refl, arith,
}
use courier_go.Libs.{Libs}
use courier_go.ClientOptions.{Decoder}
use courier_go.Paho.{MqttClient}
use courier_go.Client.{Client}
use courier_go.Client.Delivery.{
  DeliveryContext, client_id_from_context, Message, PahoMessage, callback_wrapper, with_client_id,
  empty_context,
}
use courier_go.Errors.{Error}
use courier_go.Otel.Setup.{Meter, made, new_otel}
use courier_go.Otel.Settings.{Globals, OtelOption}
use courier_go.Otel.Setup.Recording.{visits, new_otel-made_records}
use courier_go.Otel.Settings.Disabled.{disables}
use courier_go.Otel.{
  TracePath, trace_callback, Attribute, service_name, topic, client_id, qos, retained,
  code_namespace, code_function, match, measure, recorders_at, Recorders, Otel,
}
use courier_go.Otel.Callback.{
  FunctionName, package_path, code_name, MessageHandler, Delivered, traced_context, deliver,
  delivery_attributes, instrument_callback,
}

module _ {D : Type 0} where
  -- The attributes of a delivery's measurements, with the ID of the connection that it came by.
  abbrev pub delivered_attributes : Otel → Option FunctionName → String → Message D → List Attribute
  delivered_attributes t name id msg =
      let base =
        service_name t.service
        ∷ code_namespace (package_path name)
        ∷ code_function (code_name name)
        ∷ qos msg.qos
        ∷ retained msg.retained
        ∷ t.attributes in
      (if str_eq id "" then base else base ++ client_id id ∷ [])
      ++ topic (t.topic_transformer msg.topic) ∷ []

  -- A delivery of a message by a connection, measured in one way.
  pub record IsMeasured (handler : MessageHandler D) (sdk_span : Bool) (id : String)
      (msg : Message D) (attrs : List Attribute) (d : Delivered D) : Type 0 where
    pub context : DeliveryContext
    pub by_connection : client_id_from_context context ≡ id
    pub once : d.given ≡ (context, msg) ∷ []
    pub same : d.handled ≡ handler context msg
    pub attempt : d.attempts ≡ attrs ∷ []
    pub latency : d.latencies ≡ attrs ∷ []
    pub failure :
        d.failures
        ≡ (if not d.handled.panicked && (sdk_span && d.handled.marks_error) then attrs ∷ [] else [])

  -- A delivery to a handler, traced or not.
  abbrev pub IsDelivered :
      Bool → MessageHandler D → Bool → String → Message D → List Attribute → Delivered D → Type 0
  IsDelivered true handler sdk_span id msg attrs d = IsMeasured handler sdk_span id msg attrs d
  IsDelivered false handler sdk_span id msg attrs d =
      d ≡ deliver handler (with_client_id empty_context id) msg

measured_at :
    (t : Otel) (r : Recorders) (attrs : List (List Attribute))
    → recorders_at t.rc trace_callback ≡ some r
    → measure t trace_callback attrs ≡ attrs
unfolding measure
measured_at t r attrs h = rw (h, measure) refl

client_id-traced_context :
    (t : Otel) (name : Option FunctionName) (ctx : DeliveryContext)
    → client_id_from_context (traced_context t name ctx) ≡ client_id_from_context ctx
unfolding traced_context client_id_from_context
client_id-traced_context t name ctx = ground arith

-- The recorders of a path that New records.
some_recorders :
    (o : Option Recorders) (b : Bool) (rs : Recorders)
    → o ≡ (if b then none else some rs)
    → not b ≡ true
    → (r : Recorders) × (o ≡ some r)
some_recorders o true rs h on = absurd (ground (arith, on))
some_recorders o false rs h on = (rs, h)

module _ ⦃libs : Libs⦄ {D : Type 0} where
  -- The message that callbackWrapper makes.
  abbrev pub delivered_message :
      (Decoder → List ℕ → D) → Client → MqttClient → PahoMessage → Message D
  delivered_message new_decoder c cc m = callback_wrapper new_decoder c (λ ctx msg. msg) cc m

  instrument_callback-IsDelivered :
      (t : Otel) (sdk_span : Bool) (name : Option FunctionName) (handler : MessageHandler D)
      (id : String) (msg : Message D) (traced : Bool)
      → match t.trace_paths trace_callback ≡ traced
      → (traced ≡ true → (r : Recorders) × (recorders_at t.rc trace_callback ≡ some r))
      → IsDelivered traced handler sdk_span id msg
          (delivered_attributes t name id msg)
          (instrument_callback t sdk_span name handler (with_client_id empty_context id) msg)
  unfolding instrument_callback delivery_attributes with_client_id client_id_from_context
  instrument_callback-IsDelivered t sdk_span name handler id msg true on recorded =
      let (r, at) = recorded refl in
      let ctx = with_client_id empty_context id in
      let measured = λ (attrs : List (List Attribute)). measured_at t r attrs at in
      record {
        context = traced_context t name ctx;
        by_connection = client_id-traced_context t name ctx;
        once = ground (arith, on);
        same = ground (arith, on);
        attempt = rw on (measured _);
        latency = rw on (measured _);
        failure = ground (arith, on, measured (delivered_attributes t name id msg ∷ []));
      }
  instrument_callback-IsDelivered t sdk_span name handler id msg false off recorded =
      ground (arith, off)

  -- A handler behind callbackWrapper and the instrumentCallback of an OTel that New returned is
  -- called exactly once for a message of paho, with the message that callbackWrapper makes of it,
  -- in a context that has the ID of the connection. When no option disables the tracing of
  -- callbacks, the call is one attempt and one latency with the same attributes, the ID among
  -- them if it is not empty, and one failure with these exactly if the handler returns and has
  -- marked the span of an SDK tracer. Else the handler is called as without the OTel, and nothing is
  -- measured.
  pub callback_wrapper-instrument_callback :
      (new_decoder : Decoder → List ℕ → D) (g : Globals) (meter : Meter) (paths : List TracePath)
      (now : String) (unregister : Option Error) (service : String) (opts : List OtelOption)
      (t : Otel) (sdk_span : Bool) (name : Option FunctionName) (handler : MessageHandler D)
      (c : Client) (cc : MqttClient) (m : PahoMessage)
      → (new_otel g meter paths now unregister service opts).0 ≡ made t
      → visits paths trace_callback ≡ true
      → IsDelivered
          (not (disables opts trace_callback))
          handler
          sdk_span
          cc.client_id
          (delivered_message new_decoder c cc m)
          (delivered_attributes t name cc.client_id (delivered_message new_decoder c cc m))
          (callback_wrapper new_decoder c (instrument_callback t sdk_span name handler) cc m)
  unfolding callback_wrapper
  callback_wrapper-instrument_callback new_decoder g meter paths now unregister service opts t
        sdk_span name handler c cc m h visited =
      let (traced, rs) =
        new_otel-made_records g meter paths now unregister service opts t trace_callback h
          visited in
      instrument_callback-IsDelivered t sdk_span name handler cc.client_id
        (delivered_message new_decoder c cc m) (not (disables opts trace_callback)) traced
        (some_recorders (recorders_at t.rc trace_callback) (disables opts trace_callback) _ rs)
