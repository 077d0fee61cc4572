-- ===== src/Client/Handlers/Publish.antt =====
-- Publish and SubscribeMultiple with several connections.
use courier_go.Base.{ℕ, ◌%◌, ◌^◌, ◌<◌, String, true, some, List, [], ◌≡◌, ◌≢◌, length, get_elem?}
use courier_go.ClientOptions.Apply.{ClientOption}
use courier_go.Errors.{Error, sentinel, publish_timeout}
use courier_go.Libs.{Libs}
use courier_go.Options.{CallOption, compose_options}
use courier_go.Paho.{MqttClient, Context, Broker, encoded, failed}
use courier_go.Paho.Setup.{Host}
use courier_go.Client.{Client, handle_token}
use courier_go.Client.Exec.{Call, returned, panicked, fails}
use courier_go.Client.Exec.Laws.{IsMulti}
use courier_go.Client.Exec.Frame.{execute_address_only}
use courier_go.Client.Exec.RoundRobin.{one_call, execute-exec_one_round_robin}
use courier_go.Client.Handlers.{publish_handler}
use courier_go.Client.Lifecycle.{created, new_client}
use courier_go.Client.Lifecycle.New.{configured, new_client-multi}

module _ ⦃libs : Libs⦄ where
  -- The call that publishes on one connection.
  abbrev pub publish_call : Context → Broker → String → List CallOption → List ℕ → Call
  publish_call ctx b topic opts bytes cc =
      let o = compose_options opts in
      handle_token ctx (b.publish cc topic o.qos o.retained bytes) (sentinel publish_timeout)

  -- With several connections, and a counter below 2^63, a Publish whose message encodes sends the
  -- encoded bytes, with the level and the retained flag of its options, on exactly the connection
  -- at the counter modulo their number, and returns what that connection's token gave; the
  -- counter advances by one.
  pub publish_handler_encoded :
      (c : Client) (ctx : Context) (b : Broker) (topic : String) (message : ℕ)
      (opts : List CallOption) (bytes : List ℕ) (m : MqttClient)
      → b.encode c.options.new_encoder message ≡ encoded bytes
      → IsMulti c
      → c.rr_counter < 2 ^ 63
      → get_elem? c.ordered_clients (c.rr_counter % length c.ordered_clients) ≡ some m
      → publish_handler c ctx b topic message opts
        ≡ one_call c ctx (publish_call ctx b topic opts bytes) m
  unfolding publish_handler
  publish_handler_encoded c ctx b topic message opts bytes m e h small found =
      rw (e, publish_handler)
        (execute-exec_one_round_robin c ctx b (publish_call ctx b topic opts bytes) m h small found)

  -- A Publish whose message does not encode returns the encoder's error: it runs on no connection,
  -- and leaves the client, its round robin counter included, as it was.
  pub publish_handler_failed :
      (c : Client) (ctx : Context) (b : Broker) (topic : String) (message : ℕ)
      (opts : List CallOption) (e : Error)
      → b.encode c.options.new_encoder message ≡ failed e
      → publish_handler c ctx b topic message opts
        ≡ record { client = c; calls = []; notified = []; outcome = returned (some e) }
  unfolding publish_handler fails
  publish_handler_failed c ctx b topic message opts e h = rw (h, publish_handler)

  -- A client that NewClient accepts with an address in the multiple connection mode panics on the
  -- first Publish whose message encodes.
  pub publish_handler_panics :
      (host : Host) (b : Broker) (opts : List ClientOption) (c : Client) (ctx : Context)
      (topic : String) (message : ℕ) (call_opts : List CallOption) (bytes : List ℕ)
      → new_client host b opts ≡ created c
      → (configured opts).broker_address ≢ ""
      → (configured opts).multi_connection_mode ≡ true
      → b.encode c.options.new_encoder message ≡ encoded bytes
      → (publish_handler c ctx b topic message call_opts).outcome ≡ panicked
  unfolding publish_handler
  publish_handler_panics host b opts c ctx topic message call_opts bytes made address multi e =
      let (on, single, none_left, none_ordered) =
        new_client-multi host b opts c made address multi in
      rw (e, publish_handler)
        (execute_address_only c ctx b (publish_call ctx b topic call_opts bytes) _ on single
          none_left none_ordered).1
