-- ===== src/Otel/Stopping.antt =====
-- Stopping a client whose OTel observes its connections.
use courier_go.Base.{Option, none, some, ◌≡◌, ◌↔◌, arith}
use courier_go.Errors.{Error}
use courier_go.Otel.{Otel, otel_stop, stop_middleware}

-- The first error of two.
abbrev pub both : Option Error → Option Error → Option Error
both none e = e
both (some e) d = some e

-- The error of an Unregister that is called, or of none.
abbrev pub cleanup : Option (Option Error) → Option Error
cleanup none = none
cleanup (some err) = err

-- A stop through the middleware returns the error of the client's stop, and else that of the
-- cleanup. The cleanup runs whatever the client's stop returns: the registration is gone afterwards
-- exactly when there was none or its Unregister did not fail.
pub stop_middleware-cleans :
    (t : Otel) (err : Option Error)
    → ((stop_middleware t err).1 ≡ both err (cleanup t.registration))
      × (((stop_middleware t err).0.registration ≡ none) ↔ (cleanup t.registration ≡ none))
unfolding stop_middleware otel_stop
stop_middleware-cleans t err = ground arith
