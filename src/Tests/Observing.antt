-- ===== src/Tests/Observing.antt =====
-- What a client shows, and the middlewares of an OTel.
use courier_go.Base.{
  strip_brackets, or_else, true, false, none, some, [], ◌∷◌, concat, ◌≡◌, refl, arith,
}
use courier_go.ClientOptions.Apply.{default_client_options}
use courier_go.Options.{qos, retained}
use courier_go.Paho.{MqttClient}
use courier_go.Client.{Client}
use courier_go.Client.Handlers.{publish_handler, subscriber_funcs, unsubscriber_handler}
use courier_go.Otel.{Recorders, recorders_at, Otel, custom}
use courier_go.Otel.Calls.{
  publisher_middleware, subscribe_middleware, subscribe_multiple_middleware,
  unsubscriber_middleware,
}
use courier_go.Otel.Counters.{Counts, middlewares-Counts}
use courier_go.Address.{TcpAddress, address_string}
use courier_go.ClientOptions.{ClientOptions}
use courier_go.Paho.Setup.{to_client_options}
use courier_go.Telemetry.Shown.{IsPlain, ReadsBack, transform_client_info-to_client_options}
use courier_go.Telemetry.{OptionsReader, transform_client_info}
use courier_go.Tests.Samples.{list_libs, host, flaky, context, pair}

abbrev subscribed : Client
subscribed = record pair {
  subscriptions =
      ("u", record { topic = "u"; options = qos 1 ∷ retained true ∷ []; callback = 3 })
      ∷ ("v", record { topic = "v"; options = []; callback = 3 })
      ∷ [];
}

abbrev reader : MqttClient → OptionsReader
reader m = record {
  servers = [];
  username = "user";
  resume_subs = false;
  clean_session = true;
  auto_reconnect = true;
}

abbrev recorders : Recorders
recorders = record { attempts = "a"; failures = "f"; latency = "l"; boundaries = [] }

abbrev otel : Otel
otel = record {
  text_map_carrier_func = true;
  rc = record {
    publisher = some recorders;
    subscriber = some recorders;
    unsubscriber = some recorders;
    callback = none;
  };
  service = "svc";
  trace_paths = record {
    publisher = true;
    subscriber = true;
    unsubscriber = true;
    callback = false;
  };
  topic_transformer = λ t. concat "/" t;
  attributes = custom 1 ∷ [];
  info_handler = true;
  registration = some none;
}

middlewares-Counts_example :
    Counts 1
      (publisher_middleware otel publish_handler pair context flaky "t" 9 []).executed.outcome
      (publisher_middleware otel publish_handler pair context flaky "t" 9 [])
    × Counts 1
        (subscribe_middleware otel
          (λ n. n)
          subscriber_funcs
          pair
          context
          flaky
          "t"
          9
          []).executed.outcome
        (subscribe_middleware otel (λ n. n) subscriber_funcs pair context flaky "t" 9 [])
    × Counts 2
        (unsubscriber_middleware otel unsubscriber_handler pair context flaky
          ("a" ∷ "b" ∷ [])).executed.outcome
        (unsubscriber_middleware otel unsubscriber_handler pair context flaky ("a" ∷ "b" ∷ []))
    × Counts 2
        (subscribe_multiple_middleware otel
          (λ n. n)
          subscriber_funcs
          pair
          context
          flaky
          (("a", 1) ∷ ("b", 0) ∷ [])
          9).executed.outcome
        (subscribe_multiple_middleware otel
          (λ n. n)
          subscriber_funcs
          pair
          context
          flaky
          (("a", 1) ∷ ("b", 0) ∷ [])
          9)
unfolding recorders_at
middlewares-Counts_example =
    middlewares-Counts otel (λ n. n) publish_handler subscriber_funcs unsubscriber_handler pair
      context flaky "t" 9 [] ("a" ∷ "b" ∷ []) (("a", 1) ∷ ("b", 0) ∷ []) (recorders, refl)
      (recorders, refl) (recorders, refl)

abbrev near : TcpAddress
near = record { host = "h"; port = 1883 }

abbrev at_near : ClientOptions
at_near = record default_client_options {
  broker_address = "h:1883";
  client_id = "c";
  username = "user";
}

abbrev near_reader : MqttClient → OptionsReader
near_reader m = record {
  servers = "h:1883" ∷ [];
  username = "user";
  resume_subs = false;
  clean_session = false;
  auto_reconnect = true;
}

near-IsPlain : IsPlain near
unfolding strip_brackets
near-IsPlain = record { small = omega arith; bare = refl }

near-ReadsBack : ReadsBack flaky near_reader near (to_client_options host at_near "-0")
unfolding to_client_options default_client_options address_string
near-ReadsBack = record {
  servers = λ e. refl;
  client_id = refl;
  username = refl;
  resume_subs = refl;
  clean_session = refl;
  auto_reconnect = refl;
}

near-address : at_near.broker_address ≡ address_string near
unfolding default_client_options address_string
near-address = refl

transform_client_info-to_client_options_example :
    transform_client_info flaky near_reader
      (flaky.new_client (to_client_options host at_near "-0"))
      []
    ≡ record {
      addresses = near ∷ [];
      client_id = (to_client_options host at_near "-0").client_id;
      username = or_else (to_client_options host at_near "-0").username "";
      resume_subs = at_near.resume_subscriptions;
      clean_session = at_near.clean_session;
      auto_reconnect = at_near.auto_reconnect;
      connected = true;
      subscriptions = [];
    }
transform_client_info-to_client_options_example =
    transform_client_info-to_client_options host flaky near_reader at_near "-0" [] near near-IsPlain
      near-ReadsBack near-address
