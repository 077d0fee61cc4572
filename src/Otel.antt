-- ===== src/Otel.antt =====
-- otelcourier: the state of an OTel, its recorders, and Stop.
--
-- The tracer, the meter and the propagator are the environment: what the code gives them is part of
-- its result. A number stands for each custom attribute.
pub mod Settings
pub mod Setup
pub mod Calls
pub mod Callback
pub mod Applied
pub mod Info
pub mod Transparent
pub mod Counters
pub mod Stopping
use Prim.Native.String.{compare}
use text.Mathlib.Text.{is_lt}
use courier_go.Base.{
  ℕ, String, Bool, true, false, Option, none, some, List, [], ◌∷◌, ◌++◌, map, concat, decimal,
  str_eq, if◌then◌else◌,
}
use courier_go.Errors.{Error}
use courier_go.Libs.{Libs}
use courier_go.Options.{CallOption}
use courier_go.Paho.{Context, Broker}
use courier_go.Client.{Client}
use courier_go.Client.Exec.{Outcome, returned, panicked, Executed}
use courier_go.Client.Handlers.{Publisher, Subscriber, Unsubscriber}

-- The four bits of a tracePath.
pub data TracePath : Type 0 where
  trace_publisher trace_subscriber trace_unsubscriber trace_callback : TracePath

pub record TracePaths : Type 0 where
  pub publisher : Bool
  pub subscriber : Bool
  pub unsubscriber : Bool
  pub callback : Bool

-- tracePath.match against one of the bits
unfoldable pub match : TracePaths → TracePath → Bool
match tp trace_publisher = tp.publisher
match tp trace_subscriber = tp.subscriber
match tp trace_unsubscriber = tp.unsubscriber
match tp trace_callback = tp.callback

-- disableTracePathOpt.apply
unfoldable pub disable : TracePath → TracePaths → TracePaths
disable trace_publisher tp = record tp { publisher = false }
disable trace_subscriber tp = record tp { subscriber = false }
disable trace_unsubscriber tp = record tp { unsubscriber = false }
disable trace_callback tp = record tp { callback = false }

-- The attributes of spans and metrics by their keys.
pub data Attribute : Type 0 where
  service_name topic client_id : String → Attribute
  qos : ℕ → Attribute
  retained : Bool → Attribute
  topics topics_with_qos : List String → Attribute
  code_namespace code_function version : String → Attribute
  custom : ℕ → Attribute

-- recorders: the names of its two counters and of its histogram, with the boundaries of the latter.
-- A boundary is told apart by a number.
pub record Recorders : Type 0 where
  pub attempts : String
  pub failures : String
  pub latency : String
  pub boundaries : List ℕ

-- recorder, a map with tracePath keys
pub record Recorder : Type 0 where
  pub publisher : Option Recorders
  pub subscriber : Option Recorders
  pub unsubscriber : Option Recorders
  pub callback : Option Recorders

-- r[path]
unfoldable pub recorders_at : Recorder → TracePath → Option Recorders
recorders_at r trace_publisher = r.publisher
recorders_at r trace_subscriber = r.subscriber
recorders_at r trace_unsubscriber = r.unsubscriber
recorders_at r trace_callback = r.callback

-- OTel; its tracer, meter, propagator and clock are the environment
pub record Otel : Type 0 where
  pub service : String
  pub trace_paths : TracePaths
  pub topic_transformer : String → String
  pub attributes : List Attribute
  pub info_handler : Bool
  pub text_map_carrier_func : Bool
  pub rc : Recorder
  -- infoHandlerRegistration, as the error that its Unregister returns
  pub registration : Option (Option Error)

-- incAttempt, incFailure, recordLatency: nothing on a path without recorders
unfoldable pub measure : Otel → TracePath → List (List Attribute) → List (List Attribute)
unfolding recorders_at
measure t path attrs = elim (recorders_at t.rc path) [ none ↦ [] | some r ↦ attrs ]

-- OTel.Stop: the OTel, and the error of Unregister
unfoldable pub otel_stop : Otel → Otel × Option Error
otel_stop t = elim t.registration [
  | none ↦ (t, none)
  | some err ↦ elim err [ none ↦ (record t { registration = none }, none) | some e ↦ (t, some e) ]
]

-- StopMiddleware, around a Stop that returned `err`
unfoldable pub stop_middleware : Otel → Option Error → Otel × Option Error
unfolding otel_stop
stop_middleware t err =
    let (u, cleanup) = otel_stop t in (u, elim err [ none ↦ cleanup | some e ↦ some e ])
