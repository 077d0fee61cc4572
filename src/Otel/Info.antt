-- ===== src/Otel/Info.antt =====
-- InfoHandler of http.go, and the observation of clients in otelcourier/info_handler.go.
--
-- encoding/json is the environment: the bytes that an Encoder writes for an infoResponse, and what a
-- Decoder makes of the bytes of a body.
use courier_go.Base.{
  ℕ, suc, Bool, true, Option, none, some, List, [], ◌∷◌, ◌++◌, length, or_else, ◌==◌, if◌then◌else◌,
  ◌≡◌, refl, ap,
}
use courier_go.Errors.{Error}
use courier_go.Libs.{Libs}
use courier_go.Paho.{MqttClient, Broker}
use courier_go.Client.{Client}
use courier_go.Telemetry.{OptionsReader, MqttClientInfo, InfoResponse, info_response}
use courier_go.Telemetry.Connections.{count}
use courier_go.Otel.{Attribute, service_name, client_id, Otel}

-- inMemResponseWriter; a status of 0 is one that was never written
pub record InMemResponseWriter : Type 0 where
  pub body : List ℕ
  pub status : ℕ

-- Write
unfoldable pub write : List ℕ → InMemResponseWriter → InMemResponseWriter
write bytes w = record w { body = w.body ++ bytes }

-- WriteHeader
unfoldable pub write_header : ℕ → InMemResponseWriter → InMemResponseWriter
write_header code w = record w { status = code }

-- A http.Handler, at a response writer of this kind.
abbrev pub Handler : Type 0
Handler = InMemResponseWriter → InMemResponseWriter

-- What a json.Decoder makes of a body: the `clients` of it, or an error.
pub data Decoded : Type 0 where
  clients : List MqttClientInfo → Decoded
  failed : Error → Decoded

-- boolInt64
unfoldable pub bool_int64 : Bool → ℕ
bool_int64 connected = if connected then 1 else 0

-- One ObserveInt64.
pub record Observation : Type 0 where
  pub value : ℕ
  pub attributes : List Attribute

-- The loop of the callback.
unfoldable pub observe : List Attribute → List MqttClientInfo → List Observation
unfolding bool_int64
observe attrs [] = []
observe attrs (cl ∷ cls) =
    record { value = bool_int64 cl.connected; attributes = attrs ++ client_id cl.client_id ∷ [] }
    ∷ observe attrs cls

-- callback: `request` is the error of NewRequestWithContext. The observations and the error.
unfoldable pub info_callback :
    Option Error → (List ℕ → Decoded) → Handler → List Attribute → List Observation × Option Error
unfolding observe
info_callback (some e) decode handler attrs = ([], some e)
info_callback none decode handler attrs =
    elim (decode (handler (record { body = []; status = 0 })).body) [
      | failed e ↦ ([], some e)
      | clients cls ↦ (observe attrs cls, none)
    ]

-- The attributes that initInfoHandler gives the callback.
unfoldable pub info_attributes : Otel → List Attribute
info_attributes t = service_name t.service ∷ t.attributes

-- The observations with a value.
abbrev pub observed : ℕ → List Observation → ℕ
observed v [] = 0
observed v (o ∷ os) = let rest = observed v os in if o.value == v then suc rest else rest

count_all : {A : Type 0} (l : List A) → count (λ x. true) l ≡ length l
count_all [] = refl
count_all (x ∷ l) = ap suc (count_all l)

module _ ⦃libs : Libs⦄ where
  -- InfoHandler of a Client
  unfoldable pub info_handler :
      (InfoResponse → List ℕ) → Broker → (MqttClient → OptionsReader) → Client → Handler
  unfolding write write_header
  info_handler encode b reader c w = write (encode (info_response b reader c)) (write_header 200 w)

  -- encoding/json reads back the clients of a response that it has written; an empty list, which
  -- omitempty leaves out, is read as none.
  abbrev pub ReadsClients : (InfoResponse → List ℕ) → (List ℕ → Decoded) → InfoResponse → Type 0
  ReadsClients encode decode r = decode (encode r) ≡ clients (or_else r.clients [])
