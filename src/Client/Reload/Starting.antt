-- ===== src/Client/Reload/Starting.antt =====
-- What Start reports for a client with a resolver.
use courier_go.Libs.{Libs}
use courier_go.Client.{Client}
