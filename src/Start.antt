-- ===== src/Start.antt =====
-- exp_starter.go and utils.go: starting a client in the background, and waiting until it is
-- connected. Durations are int64 nanoseconds.
pub mod Backoff
pub mod Wait
pub mod Running
use courier_go.Base.{
  ℕ, zero, suc, ◌*◌, ℤ, pos, Bool, true, false, Option, none, some, List, [], ◌∷◌, lt_int, twice64,
  if◌then◌else◌,
}
use courier_go.ClientOptions.{StartOptions}
use courier_go.Errors.{Error}

-- min
unfoldable pub min : ℤ → ℤ → ℤ
min x y = if lt_int x y then x else y

-- What the select of the loop meets: ctx.Done(), or the result of a Start.
pub data StartEvent : Type 0 where
  cancelled : StartEvent
  started : Option Error → StartEvent

-- What the loop did for each failed Start: the error that onRetry was given, if there is an
-- onRetry, another Start in the background, and the time it slept.
pub record Retry : Type 0 where
  pub notified : Option Error
  pub slept : ℤ

-- How the loop stands after some events: waiting for the next one, or over.
pub record Run : Type 0 where
  pub retries : List Retry
  pub over : Bool

abbrev notification : StartOptions → Error → Option Error
notification so e = elim so.on_retry [ none ↦ none | some f ↦ some e ]

unfoldable pub starter_loop : StartOptions → ℤ → List StartEvent → Run
unfolding min
starter_loop so interval [] = record { retries = []; over = false }
starter_loop so interval (cancelled ∷ events) = record { retries = []; over = true }
starter_loop so interval (started none ∷ events) = record { retries = []; over = true }
starter_loop so interval (started (some e) ∷ events) =
    let run = starter_loop so (min (twice64 interval) so.max_interval) events in
    record run { retries = record { notified = notification so e; slept = interval } ∷ run.retries }

-- 100 * time.Millisecond
abbrev pub first_interval : ℕ
first_interval = 100_000_000

-- exponentialStartStrategy
unfoldable pub exponential_start_strategy : StartOptions → List StartEvent → Run
unfolding starter_loop
exponential_start_strategy so events = starter_loop so (pos first_interval) events

-- What the select of WaitForConnection takes next: the timer, a tick, or an IsConnected that
-- answers.
pub data WaitEvent : Type 0 where
  expired tick : WaitEvent
  answer : Bool → WaitEvent

-- The loop of WaitForConnection: `asking` tells that IsConnected runs, which is when `tick` is nil
-- and a tick cannot be taken; an answer cannot be taken otherwise. `none` while it waits.
unfoldable pub wait_loop : Bool → List WaitEvent → Option Bool
wait_loop asking [] = none
wait_loop asking (expired ∷ events) = some false
wait_loop false (tick ∷ events) = wait_loop true events
wait_loop true (tick ∷ events) = wait_loop true events
wait_loop true (answer true ∷ events) = some true
wait_loop true (answer false ∷ events) = wait_loop false events
wait_loop false (answer v ∷ events) = wait_loop false events

-- WaitForConnection
unfoldable pub wait_for_connection : List WaitEvent → Option Bool
unfolding wait_loop
wait_for_connection events = wait_loop false events
