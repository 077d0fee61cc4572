-- ===== src/Start/Running.antt =====
-- Run of client.go.
use courier_go.Base.{ℕ, Option, none, some, List, [], ◌∷◌, ◌≡◌}
use courier_go.Address.{TcpAddress}
use courier_go.Libs.{Libs}
use courier_go.Paho.{MqttClient, Broker}
use courier_go.Paho.Setup.{Host}
use courier_go.Client.{Client}
use courier_go.Client.Exec.{Outcome, returned, panicked, Executed}
use courier_go.Client.Exec.Laws.{connections}
use courier_go.Client.Handlers.{Subscriber}
use courier_go.Client.Lifecycle.{stop, cleared}
use courier_go.Client.Reload.Attempts.{start}
use courier_go.Start.{StartEvent, started, Run, exponential_start_strategy}

-- What the environment answers during one Start.
pub record StartEnvironment : Type 0 where
  pub brokers : ℕ → Broker
  pub broker : Broker
  pub rounds : ℕ
  pub first_update : Option (List TcpAddress)

module _ ⦃libs : Libs⦄ where
  -- How Run stands: it waits for a Start or for the end of its context, it has returned, or a Start
  -- has panicked.
  pub data Running : Type 0 where
    waiting : Client → Running
    ended : Executed → Running
    crashed : Client → Running

  abbrev start_in :
      Subscriber → Host → Client → StartEnvironment → Option (Executed × List MqttClient)
  start_in sub host c env = start sub host env.brokers env.broker env.rounds c env.first_update

  -- The Starts of the start strategy, one after another until one returns nil: the client, and
  -- what its loop meets; `none` after a panic.
  unfoldable pub start_all :
      Subscriber → Host → List StartEnvironment → Client → Option (Client × List StartEvent)
  start_all sub host [] c = some (c, [])
  start_all sub host (env ∷ envs) c = elim (start_in sub host c env) [
    | none ↦ some (c, [])
    | some (e, closed) ↦
        let rest = start_all sub host envs e.client in
        elim e.outcome [
          | panicked ↦ none
          | returned err ↦ elim err [
            | none ↦ some (e.client, started none ∷ [])
            | some x ↦ elim rest [
              | none ↦ none
              | some (d, events) ↦ some (d, started (some x) ∷ events)
            ]
          ]
        ]
  ]

  -- <-ctx.Done(), and stop; `done` is the broker that it meets, or `none` while the context lasts
  abbrev pub stop_when_done : Option Broker → Client → Running
  stop_when_done none c = waiting c
  stop_when_done (some b) c = ended (stop c b)

  -- Run: how it stands, and the waits of the start strategy, if it has one
  unfoldable pub run :
      Subscriber
      → Host
      → StartEnvironment
      → List StartEnvironment
      → Option Broker
      → Client
      → Running × Option Run
  unfolding start_all
  run sub host env envs done c = elim c.options.start_options [
    | some so ↦ elim (start_all sub host (env ∷ envs) c) [
      | none ↦ (crashed c, none)
      | some (d, events) ↦ (stop_when_done done d, some (exponential_start_strategy so events))
    ]
    | none ↦ elim (start_in sub host c env) [
      | none ↦ (waiting c, none)
      | some (e, closed) ↦ elim e.outcome [
        | panicked ↦ (crashed e.client, none)
        | returned err ↦ elim err [
          | some x ↦ (ended e, none)
          | none ↦ (stop_when_done done e.client, none)
        ]
      ]
    ]
  ]

  -- How Run ends without a start strategy, once its Start has come to an end.
  abbrev pub EndsAs : Executed → Outcome → Running × Option Run → Type 0
  EndsAs e panicked r = r ≡ (crashed e.client, none)
  EndsAs e (returned (some x)) r = r ≡ (ended e, none)
  EndsAs e (returned none) r = r ≡ (
    ended (record {
      client = cleared e.client;
      calls = connections e.client;
      notified = [];
      outcome = returned none;
    }),
    none,
  )
