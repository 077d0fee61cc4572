-- ===== src/Client/Operations/Latest.antt =====
-- What the last update of a resolver leaves of a client with several connections.
use courier_go.Base.{ℕ, List}
use courier_go.Address.{TcpAddress}
use courier_go.Libs.{Libs}
use courier_go.Paho.{Broker}
use courier_go.Paho.Setup.{Host}
use courier_go.Client.{Client}
use courier_go.Client.Handlers.{subscriber_funcs}
use courier_go.Client.Reload.Attempts.{attempt_connections}
use courier_go.Client.Operations.Watching.{ResolverEvent, Watched, watch_address_updates}
use courier_go.Client.Operations.{attempted}

module _ ⦃libs : Libs⦄ where
  module _ (host : Host) where
    -- The client after one update.
    abbrev pub after_update : (ℕ → Broker) → Broker → ℕ → List TcpAddress → Client → Client
    after_update brokers b rounds addrs c =
        attempted c (attempt_connections subscriber_funcs host brokers b rounds c addrs)

    abbrev watch : List ResolverEvent → Client → Watched
    watch events c = watch_address_updates subscriber_funcs host events c
