-- ===== src/Telemetry/Emitter.antt =====
-- metrics.go: what the emitter of client information emits.
use courier_go.Base.{String, ℕ, Bool, Option, List, [], ◌∷◌}
use courier_go.Libs.{Libs}
use courier_go.Paho.{MqttClient, Broker}
use courier_go.Client.{Client}
use courier_go.Telemetry.{OptionsReader, MqttClientInfo, InfoResponse, info_response}

-- ClientMeta
pub record ClientMeta : Type 0 where
  pub multi_conn_mode : Bool
  pub clients : Option (List MqttClientInfo)
  pub subscriptions : List (String × ℕ)

module _ ⦃libs : Libs⦄ where
  -- What the select of runBrokerInfoEmitter meets: ctx.Done(), or a tick, at which the client and
  -- what paho says of it are these.
  pub data EmitterEvent : Type 0 where
    done : EmitterEvent
    tick : Broker → Client → EmitterEvent

  client_meta : InfoResponse → ClientMeta
  client_meta ir = record {
    multi_conn_mode = ir.multi_conn_mode;
    clients = ir.clients;
    subscriptions = ir.subscriptions;
  }

  -- runBrokerInfoEmitter: what Emit is called with
  unfoldable pub run_broker_info_emitter :
      (MqttClient → OptionsReader) → List EmitterEvent → List ClientMeta
  unfolding client_meta
  run_broker_info_emitter reader [] = []
  run_broker_info_emitter reader (done ∷ events) = []
  run_broker_info_emitter reader (tick b c ∷ events) =
      client_meta (info_response b reader c) ∷ run_broker_info_emitter reader events
