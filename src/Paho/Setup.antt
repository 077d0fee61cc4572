-- ===== src/Paho/Setup.antt =====
-- toClientOptions, setCredentials, refreshCredentialsWithFetcher and formatAddressWithProtocol of
-- client.go.
use courier_go.Base.{ℕ, ℤ, String, Option, none, some, str_eq, concat, if◌then◌else◌}
use courier_go.ClientOptions.{ClientOptions}
use courier_go.Paho.{Settings}

-- The process and the credential fetchers: os.Hostname() without an error, and
-- fetcher.Credentials(ctx) as username and password, `none` for an error.
pub record Host : Type 0 where
  pub hostname : Option String
  pub credentials : ℕ → Option (String × String)

unfoldable pub format_address_with_protocol : ClientOptions → String
format_address_with_protocol o = elim o.tls_config [
  | some c ↦ concat "tls://" o.broker_address
  | none ↦ concat "tcp://" o.broker_address
]

-- The setters of setCredentials: the username and the password.
set_credentials : Host → ClientOptions → Option (String × String)
set_credentials host o = elim o.credential_fetcher [
  | some f ↦ host.credentials f
  | none ↦ some (o.username, o.password)
]

username_of : Option (String × String) → Option String
username_of none = none
username_of (some (u, p)) = some u

password_of : Option (String × String) → Option String
password_of none = none
password_of (some (u, p)) = some p

-- credentialsRefresher: what paho is given at a later connect.
unfoldable pub refresh_credentials : Host → ℕ → String × String
refresh_credentials host f = elim (host.credentials f) [ some c ↦ c | none ↦ ("<unknown>", "") ]

base_id : Host → ClientOptions → String
base_id host o = elim host.hostname [
  | some h ↦ if str_eq o.client_id "" then h else o.client_id
  | none ↦ o.client_id
]

retry_interval : ClientOptions → Option ℤ
retry_interval o =
    if o.connect_retry_policy.enabled then some o.connect_retry_policy.interval else none

unfoldable pub to_client_options : Host → ClientOptions → String → Settings
unfolding format_address_with_protocol set_credentials username_of password_of base_id
    retry_interval
to_client_options host o suffix =
    let credentials = set_credentials host o in
    record {
      client_id = concat (base_id host o) suffix;
      username = username_of credentials;
      password = password_of credentials;
      credentials_provider = o.credential_fetcher;
      connect_retry_interval = retry_interval o;
      broker = format_address_with_protocol o;
      resume_subs = o.resume_subscriptions;
      tls_config = o.tls_config;
      auto_reconnect = o.auto_reconnect;
      clean_session = o.clean_session;
      order_matters = o.maintain_order;
      keep_alive = o.keep_alive;
      connect_timeout = o.connect_timeout;
      max_reconnect_interval = o.max_reconnect_interval;
      write_timeout = o.write_timeout;
      log_level = o.paho_log_level;
      ack_timeout = o.ack_timeout;
    }
