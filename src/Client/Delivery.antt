-- ===== src/Client/Delivery.antt =====
-- callbackWrapper of client_subscribe.go, message.go, and the client ID in a context (context.go):
-- what a MessageHandler is called with.
use courier_go.Base.{ℕ, String, Bool, false, Option, none, some, List}
use courier_go.ClientOptions.{Decoder}
use courier_go.Errors.{Error}
use courier_go.Libs.{Libs}
use courier_go.Paho.{MqttClient}
use courier_go.Client.{Client}

-- The context of a delivery: the ID that withClientID stored, whether a propagator has extracted
-- into it, and the name of the span that a tracer has started in it.
pub record DeliveryContext : Type 0 where
  pub client_id : Option String
  pub extracted : Bool
  pub span : Option String

-- context.Background()
abbrev pub empty_context : DeliveryContext
empty_context = record { client_id = none; extracted = false; span = none }

-- withClientID
unfoldable pub with_client_id : DeliveryContext → String → DeliveryContext
with_client_id ctx id = record ctx { client_id = some id }

-- ClientIDFromContext
unfoldable pub client_id_from_context : DeliveryContext → String
client_id_from_context ctx = elim ctx.client_id [ some id ↦ id | none ↦ "" ]

-- mqtt.Message
pub record PahoMessage : Type 0 where
  pub payload : List ℕ
  pub message_id : ℕ
  pub topic : String
  pub duplicate : Bool
  pub retained : Bool
  pub qos : ℕ

-- Message; `D` is the type of the values behind the interface Decoder
pub record Message (D : Type 0) : Type 0 where
  pub id : ℕ
  pub topic : String
  pub duplicate : Bool
  pub retained : Bool
  pub qos : ℕ
  pub payload_decoder : D

module _ {D : Type 0} where
  -- NewMessageWithDecoder
  unfoldable pub new_message_with_decoder : D → Message D
  new_message_with_decoder d = record {
    id = 0;
    topic = "";
    duplicate = false;
    retained = false;
    qos = 0;
    payload_decoder = d;
  }

  -- DecodePayload, by the Decode of the decoder: the decoder afterwards, the object, and the error
  unfoldable pub decode_payload :
      {T : Type 0} → (D → T → D × T × Option Error) → Message D → T → Message D × T × Option Error
  decode_payload decode m v =
      let (d, w, err) = decode m.payload_decoder v in (record m { payload_decoder = d }, w, err)

module _ ⦃libs : Libs⦄ {D R : Type 0} where
  -- callbackWrapper; `new_decoder` is the DecoderFunc that a Decoder of the options stands for
  unfoldable pub callback_wrapper :
      (Decoder → List ℕ → D)
      → Client
      → (DeliveryContext → Message D → R)
      → MqttClient
      → PahoMessage
      → R
  unfolding with_client_id new_message_with_decoder
  callback_wrapper new_decoder c callback cc m =
      let ctx = with_client_id empty_context cc.client_id in
      let msg = new_message_with_decoder (new_decoder c.options.new_decoder m.payload) in
      callback ctx (record msg {
        id = m.message_id;
        topic = m.topic;
        duplicate = m.duplicate;
        retained = m.retained;
        qos = m.qos;
      })
