-- ===== src/Tests/Instrumenting.antt =====
-- OTels that New makes, on a client with two connections.
use courier_go.Base.{or_else, ℕ, true, false, none, some, List, [], ◌∷◌, ◌≡◌, refl}
use courier_go.ClientOptions.{Decoder}
use courier_go.Options.{qos}
use courier_go.Paho.{MqttClient}
use courier_go.Client.Delivery.{DeliveryContext, Message, PahoMessage, callback_wrapper}
use courier_go.Otel.{
  trace_publisher, trace_subscriber, trace_unsubscriber, trace_callback, TracePath, match,
  recorders_at, Otel, custom,
}
use courier_go.Otel.Callback.{Handled, instrument_callback}
use courier_go.Otel.Callback.Measured.{
  IsDelivered, delivered_attributes, delivered_message, callback_wrapper-instrument_callback,
}
use courier_go.Otel.Info.{info_handler, clients, Decoded}
use courier_go.Otel.Setup.{Meter, Made, made, panics, new_otel}
use courier_go.Otel.Settings.{
  BucketBoundaries, Globals, OtelOption, disable_tracing, with_attributes, bucket_boundaries,
}
use courier_go.Otel.Setup.Recording.{recorders_for, new_otel-records}
use courier_go.Otel.Setup.Returned.{IsWilling}
use courier_go.Telemetry.{OptionsReader, client_info}
use courier_go.Tests.Samples.{list_libs, flaky, left, pair}

abbrev process : Globals
process = record {
  tracer_provider = 1;
  meter_provider = 2;
  propagator = 3;
  def_bucket_boundaries = record {
    publisher = 1 ∷ 10 ∷ [];
    subscriber = 1 ∷ 2 ∷ [];
    unsubscriber = 1 ∷ 2 ∷ [];
    callback = 1 ∷ 5 ∷ [];
  };
}

abbrev willing : Meter
willing = record {
  counter = λ name. none;
  histogram = λ name boundaries. none;
  up_down_counter = λ name. none;
  gauge = λ name. none;
  register_callback = λ name. none;
}

abbrev paths : List TracePath
paths = trace_callback ∷ trace_publisher ∷ trace_unsubscriber ∷ trace_subscriber ∷ []

abbrev coarse : BucketBoundaries
coarse = record {
  publisher = some (100 ∷ []);
  subscriber = none;
  unsubscriber = none;
  callback = none;
}

abbrev otel_options : List OtelOption
otel_options =
    with_attributes (custom 1 ∷ [])
    ∷ disable_tracing trace_subscriber
    ∷ bucket_boundaries coarse
    ∷ []

abbrev otel_of : Otel → Made Otel → Otel
otel_of t (made u) = u
otel_of t (panics e) = t

abbrev unmade : Otel
unmade = record {
  service = "";
  trace_paths = record {
    publisher = false;
    subscriber = false;
    unsubscriber = false;
    callback = false;
  };
  topic_transformer = λ t. t;
  attributes = [];
  info_handler = false;
  text_map_carrier_func = false;
  rc = record { publisher = none; subscriber = none; unsubscriber = none; callback = none };
  registration = none;
}

abbrev otel : Otel
otel = otel_of unmade (new_otel process willing paths "7" none "svc" otel_options).0

otel_made : (new_otel process willing paths "7" none "svc" otel_options).0 ≡ made otel
unfolding new_otel
otel_made = refl

willing-IsWilling : IsWilling willing
willing-IsWilling = record {
  counters = λ name. refl;
  histograms = λ name boundaries. refl;
  up_down_counters = λ name. refl;
  callbacks = λ name. refl;
}

new_otel-records_example :
    (t : Otel) × ((new_otel process willing paths "7" none "svc" otel_options).0 ≡ made t)
    × (match t.trace_paths trace_callback ≡ true)
    × (recorders_at t.rc trace_callback
        ≡ some (
            recorders_for
              (new_otel process willing paths "7" none "svc" otel_options).1
              trace_callback))
new_otel-records_example =
    new_otel-records process willing paths "7" none "svc" otel_options trace_callback
      willing-IsWilling refl

abbrev new_decoder : Decoder → List ℕ → List ℕ
new_decoder d bytes = bytes

abbrev marking : DeliveryContext → Message (List ℕ) → Handled
marking ctx msg = record { panicked = false; marks_error = true }

abbrev arrived : PahoMessage
arrived = record {
  payload = 1 ∷ 2 ∷ [];
  message_id = 5;
  topic = "t";
  duplicate = false;
  retained = true;
  qos = 1;
}

callback_wrapper-instrument_callback_example :
    IsDelivered true marking true "c-0"
      (delivered_message new_decoder pair left arrived)
      (delivered_attributes otel none "c-0" (delivered_message new_decoder pair left arrived))
      (callback_wrapper new_decoder pair (instrument_callback otel true none marking) left arrived)
callback_wrapper-instrument_callback_example =
    callback_wrapper-instrument_callback new_decoder process willing paths "7" none "svc"
      otel_options otel true none marking pair left arrived otel_made refl

abbrev no_servers : MqttClient → OptionsReader
no_servers m = record {
  servers = [];
  username = "";
  resume_subs = false;
  clean_session = true;
  auto_reconnect = true;
}

abbrev shown : List ℕ → Decoded
shown bytes = clients (or_else (client_info flaky no_servers pair) [])
