-- ===== src/Telemetry/Shown.antt =====
-- What a client shows of a connection, against what toClientOptions gave it.
use courier_go.Base.{
  ◌<◌, ◌^◌, String, List, [], ◌∷◌, map, ◌⊎◌, inl, inr, ◌≡◌, refl, ap, ◌∙◌, arith, concat,
  number-decimal, strip_brackets, host_and_port-decimal, or_else, Option-cases,
}
use courier_go.Address.{TcpAddress, address_string}
use courier_go.ClientOptions.{ClientOptions}
use courier_go.Paho.{MqttClient, Broker, Settings}
use courier_go.Paho.Setup.{Host, to_client_options, format_address_with_protocol}
use courier_go.Telemetry.{OptionsReader, port_number, server_address, transform_client_info}

-- A TCPAddress whose host has no brackets round it, as Hostname() of a URL leaves it.
pub record IsPlain (a : TcpAddress) : Type 0 where
  pub small : a.port < 2 ^ 16
  pub bare : strip_brackets a.host ≡ a.host

server_address-address_string : (a : TcpAddress) → IsPlain a → server_address (address_string a) ≡ a
unfolding server_address address_string port_number
server_address-address_string a h =
    ground (arith, host_and_port-decimal a.host a.port, number-decimal a.port, h.small, h.bare)

-- What the client relies on of paho for an mqtt.Client of these settings: its reader tells what
-- the settings hold, and of a server at the address it tells the Host of the URL.
pub record ReadsBack (b : Broker) (reader : MqttClient → OptionsReader) (a : TcpAddress)
    (s : Settings) : Type 0 where
  pub servers :
      (s.broker ≡ concat "tls://" (address_string a))
        ⊎ (s.broker ≡ concat "tcp://" (address_string a))
      → (reader (b.new_client s)).servers ≡ address_string a ∷ []
  pub client_id : (b.new_client s).client_id ≡ s.client_id
  pub username : (reader (b.new_client s)).username ≡ or_else s.username ""
  pub resume_subs : (reader (b.new_client s)).resume_subs ≡ s.resume_subs
  pub clean_session : (reader (b.new_client s)).clean_session ≡ s.clean_session
  pub auto_reconnect : (reader (b.new_client s)).auto_reconnect ≡ s.auto_reconnect

format_address-cases :
    (o : ClientOptions)
    → (format_address_with_protocol o ≡ concat "tls://" o.broker_address)
      ⊎ (format_address_with_protocol o ≡ concat "tcp://" o.broker_address)
unfolding format_address_with_protocol
format_address-cases o = elim (Option-cases o.tls_config) [
  | inl e ↦ inr (rw e refl)
  | inr (t, e) ↦ inl (rw e refl)
]

-- The info on a connection that was made of options with a broker address "host:port", the host
-- without brackets and the port below 2^16, shows exactly that address, the client ID that
-- toClientOptions set, the username it set (the empty one if a credential fetcher failed), and
-- the options' resume, clean-session and auto-reconnect flags.
pub transform_client_info-to_client_options :
    (host : Host) (b : Broker) (reader : MqttClient → OptionsReader) (o : ClientOptions)
    (suffix : String) (topics : List String) (a : TcpAddress)
    → IsPlain a
    → ReadsBack b reader a (to_client_options host o suffix)
    → o.broker_address ≡ address_string a
    → transform_client_info b reader (b.new_client (to_client_options host o suffix)) topics
      ≡ record {
        addresses = a ∷ [];
        client_id = (to_client_options host o suffix).client_id;
        username = or_else (to_client_options host o suffix).username "";
        resume_subs = o.resume_subscriptions;
        clean_session = o.clean_session;
        auto_reconnect = o.auto_reconnect;
        connected = b.is_connection_open (b.new_client (to_client_options host o suffix));
        subscriptions = topics;
      }
unfolding transform_client_info to_client_options
transform_client_info-to_client_options host b reader o suffix topics a plain reads same =
    let s = to_client_options host o suffix in
    let servers : (reader (b.new_client s)).servers ≡ address_string a ∷ [] =
      reads.servers (elim (format_address-cases o) [
        | inl e ↦ inl (e ∙ ap (concat "tls://") same)
        | inr e ↦ inr (e ∙ ap (concat "tcp://") same)
      ]) in
    let addresses =
      ap (map server_address) servers ∙ (λ i. server_address-address_string a plain i ∷ []) in
    λ i. record {
      addresses = addresses i;
      client_id = reads.client_id i;
      username = reads.username i;
      resume_subs = reads.resume_subs i;
      clean_session = reads.clean_session i;
      auto_reconnect = reads.auto_reconnect i;
      connected = b.is_connection_open (b.new_client s);
      subscriptions = topics;
    }
