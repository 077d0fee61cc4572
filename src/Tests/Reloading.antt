-- ===== src/Tests/Reloading.antt =====
-- Reloading the connections of a client, starting it, and its codecs.
use courier_go.Base.{
  ℕ, zero, suc, true, false, ◌==◌, none, some, List, [], ◌∷◌, ◌++◌, length, pos, ◌≡◌, refl, arith,
  ◌<◌, ◌+◌, if◌then◌else◌,
}
use courier_go.Address.{TcpAddress, address_string}
use courier_go.ClientOptions.{StartOptions}
use courier_go.Errors.{Error, fault}
use courier_go.Options.{qos}
use courier_go.Paho.{Broker}
use courier_go.Client.{Client}
use courier_go.Client.Lifecycle.{any_open}
use courier_go.Client.Reload.{connected, single_client, connect_in_turn, replace_clients, is_good}
use courier_go.Client.Reload.Connect.{succeeds, connect_in_turn_first}
use courier_go.Client.Reload.Replace.{dialled, replace_clients_closed}
use courier_go.ClientOptions.Apply.{default_client_options}
use courier_go.Codec.{all_failed, Decoder, chain_decode}
use courier_go.Codec.Laws.{chain_decode_first}
use courier_go.Start.{min, exponential_start_strategy, first_interval}
use courier_go.Start.Backoff.{failures, wait_at, exponential_start_strategy_waits}
use courier_go.Tests.Samples.{list_libs, flaky, host, pair, bad_token, good_token}

abbrev addresses : List TcpAddress
addresses = record { host = "a"; port = 1 } ∷ record { host = "b"; port = 2 } ∷ []

-- Every connect fails before round 2.
abbrev later : ℕ → Broker
later i = record flaky { connect = λ m. if i == 2 then good_token else bad_token }

later_fails : (j : ℕ) → j < 2 → succeeds host later pair addresses j ≡ false
unfolding is_good
later_fails zero h = refl
later_fails (suc zero) h = refl
later_fails (suc (suc j)) h = absurd (omega arith)

connect_in_turn_first_example :
    connect_in_turn host later pair addresses 5 0
    ≡ connected (single_client host (later 2) pair (record { host = "a"; port = 1 }))
unfolding is_good
connect_in_turn_first_example =
    connect_in_turn_first host later pair addresses 5 2 (record { host = "a"; port = 1 })
      (omega arith) later_fails refl refl (omega arith)

abbrev closed : Broker
closed = record flaky { is_connection_open = λ m. false }

closed_now : any_open closed (dialled host closed pair addresses) ≡ false
unfolding any_open address_string
closed_now = refl

replace_clients_closed_example :
    replace_clients host closed pair addresses
    ≡ record { client = pair; disconnected = dialled host closed pair addresses }
replace_clients_closed_example = replace_clients_closed host closed pair addresses closed_now

-- A client as NewClient makes it for a resolver.
abbrev resolving : Client
resolving = record pair {
  options = record default_client_options { resolver = some 1; multi_connection_mode = true };
  mqtt_clients = [];
  ordered_clients = [];
}

-- A client with one subscription, to a topic that is not shared; the connection it picks fails.
abbrev subscribed : Client
subscribed = record pair {
  subscriptions = ("u", record { topic = "u"; options = qos 1 ∷ []; callback = 3 }) ∷ [];
}

abbrev settings : StartOptions
settings = record { on_retry = some 4; max_interval = pos 300_000_000 }

abbrev three_errors : List Error
three_errors = fault 1 ∷ fault 2 ∷ fault 3 ∷ []

exponential_start_strategy_waits_example :
    ((exponential_start_strategy settings (failures three_errors)).over ≡ false)
    × (length (exponential_start_strategy settings (failures three_errors)).retries ≡ 3)
    × (pos 300_000_000 ≡ pos (wait_at 300_000_000 first_interval 2))
unfolding exponential_start_strategy min
exponential_start_strategy_waits_example =
    exponential_start_strategy_waits settings 300_000_000 three_errors 2
      (record { notified = some (fault 3); slept = pos 300_000_000 }) refl (omega arith) refl

abbrev rejecting : Decoder ℕ
rejecting input v = (v + 1, some (fault 6))

abbrev accepting : Decoder ℕ
accepting input v = (v + length input, none)

chain_decode_first_example :
    (chain_decode ((rejecting ∷ []) ++ accepting ∷ []) (some (8 ∷ 8 ∷ [])) 10 ≡ (13, none))
    × (chain_decode (rejecting ∷ []) (some (8 ∷ 8 ∷ [])) 10
        ≡ (11, some (all_failed "all decoders failed: " (fault 6 ∷ []))))
    × (chain_decode (rejecting ∷ []) none 10 ≡ (10, some (all_failed "all decoders failed: " [])))
chain_decode_first_example =
    chain_decode_first (rejecting ∷ []) [] accepting (8 ∷ 8 ∷ []) 10 ((λ v e. cc e), tt) refl
