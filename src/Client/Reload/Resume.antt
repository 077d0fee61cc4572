-- ===== src/Client/Reload/Resume.antt =====
-- What resumeSubscriptions reports, and what an attempt with several connections returns.
use courier_go.Base.{false, Option, none, List, [], ◌∷◌, length, ◌≡◌, ◌∙◌, ap, arith}
use courier_go.Address.{TcpAddress}
use courier_go.Errors.{Error}
use courier_go.Libs.{Libs}
use courier_go.Paho.{Broker}
use courier_go.Paho.Setup.{Host}
use courier_go.Client.{Client}
use courier_go.Client.Exec.{Outcome, returned, Executed}
use courier_go.Client.Handlers.{Subscriber}
use courier_go.Client.Lifecycle.{any_open}
use courier_go.Client.Reload.Attempts.{resume_subscriptions, attempt_multi_connections}
use courier_go.Client.Reload.Replace.{dialled, replace_clients_closed}

-- An execute returned, with an error or without one.
abbrev pub Returns : Outcome → Option Error → Type 0
Returns o err = o ≡ returned err

module _ ⦃libs : Libs⦄ where
  -- What a list of executes returned, when none of them panicked.
  abbrev pub Return : List Executed → List (Option Error) → Type 0
  Return [] [] = Unit
  Return [] (r ∷ rs) = ⊥
  Return (e ∷ es) [] = ⊥
  Return (e ∷ es) (r ∷ rs) = (e.outcome ≡ returned r) × Return es rs

  -- In the multiple connection mode, an attempt that opens no connection reports no error to a
  -- client without subscriptions: it leaves the client as it was and returns nil.
  pub attempt_multi_connections_silent :
      (sub : Subscriber) (host : Host) (b : Broker) (c : Client) (addrs : List TcpAddress)
      → any_open b (dialled host b c addrs) ≡ false
      → length c.subscriptions ≡ 0
      → attempt_multi_connections sub host b c addrs ≡ (
        record { client = c; calls = []; notified = []; outcome = returned none },
        dialled host b c addrs,
      )
  unfolding attempt_multi_connections resume_subscriptions
  attempt_multi_connections_silent sub host b c addrs closed none_kept =
      ap (λ r. (resume_subscriptions sub b r.client, r.disconnected))
        (replace_clients_closed host b c addrs closed)
      ∙ ground (arith, none_kept)
