-- ===== src/Client/Lifecycle/Callbacks.antt =====
-- The handlers that toClientOptions gives paho, and clientIDMapper.
use courier_go.Base.{ℕ, String, Bool, true, false, Option, none, some, List, [], ◌∷◌}
use courier_go.ClientOptions.{ClientOptions}
use courier_go.Errors.{Error}
use courier_go.Libs.{Libs}
use courier_go.Paho.{MqttClient}
use courier_go.Client.{Client}
use courier_go.Client.Handlers.Lost.{remove_stored_subs_called}

-- A call of a Logger: Info of a text, or Error of an error, with the client ID among the attributes.
pub data LogCall : Type 0 where
  info : String → String → LogCall
  error : Error → String → LogCall

-- The calls of a logger that may be nil.
abbrev logged : Option ℕ → LogCall → List LogCall
logged none l = []
logged (some n) l = l ∷ []

-- clientIDMapper; `has_options` tells whether the options of the client's OptionsReader are not nil
unfoldable pub client_id_mapper : Option MqttClient → Bool → String
client_id_mapper none has_options = "<nil-client>"
client_id_mapper (some m) false = "<nil-options>"
client_id_mapper (some m) true = m.client_id

-- reconnectHandler: the log calls, and the handler that is called
unfoldable pub reconnect_handler : ClientOptions → String → List LogCall × Option ℕ
reconnect_handler o id = (logged o.logger (info "reconnecting" id), o.on_reconnect_handler)

-- onConnectHandler: the handler that is called
unfoldable pub on_connect_handler : ClientOptions → Option ℕ
on_connect_handler o = o.on_connect_handler

-- connectionLostHandler: the client afterwards, the log calls, and the handler that is called
unfoldable pub connection_lost_handler :
    ⦃libs : Libs⦄ → Client → MqttClient → Error → Client × List LogCall × Option ℕ
unfolding client_id_mapper remove_stored_subs_called
connection_lost_handler c cc err = (
  remove_stored_subs_called cc c,
  logged c.options.logger (error err (client_id_mapper (some cc) true)),
  c.options.on_connection_lost_handler,
)
