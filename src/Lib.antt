-- ===== src/Lib.antt =====
-- courier-go: an MQTT client library for Go, and the resolver and instrumentation beside it.
--
-- The program. A courier Client wraps one or several paho MQTT connections. NewClient checks the
-- options and creates the connections of an address: one, or a pool. Publish, Subscribe,
-- SubscribeMultiple and Unsubscribe go through chains of middlewares to a handler, which runs a
-- paho call on connections by execute: on the single one, on one at random, on the next one of the
-- round robin, or on all. For shared topics each connection remembers what it is subscribed to. A
-- message that a connection delivers reaches the user's handler through a wrapper. A resolver sends
-- address lists, at which the client replaces its connections and subscribes again. The package
-- consul finds such lists by Consul queries and debounces them; the package otelcourier measures
-- the calls and the messages of a client by middlewares, and observes its connections.
--
-- The files, with the code that they model:
--   Base, Base/*            shared tests, lists, maps as association lists, int64, texts
--   Errors                  errors.go, and accumulateErrors of client_resolver.go
--   Errors/Accumulate       folds by accumulateErrors
--   Errors/Format           singleLineFormatFunc of client_resolver.go
--   Libs                    what the client takes of xtools (sets, slices) and go-multierror
--   Options, */Laws         options.go: QOSLevel, Retained, composeOptions
--   ClientOptions           client_options.go, client_credentials.go: the settings of a client
--   ClientOptions/Apply     every ClientOption and the defaults; */Pool on WithPoolSize
--   ClientOptions/Levels    log.go: the log levels
--   Address, */Equality     TCPAddress, and areAddressesEqual of consul/resolver.go
--   Address/Equality/*      the latter as equality of collections
--   Paho, Paho/Setup        the boundary to paho, and toClientOptions of client.go
--   Middleware, */Laws      the Use*Middleware functions
--   Client                  the state of a client, and tokens
--   Client/Exec, */*        exec.go: execute, execMultiConn and the round robin
--   Client/Handlers, */*    publishHandler, subscriberFuncs, unsubscriberHandler, lost connections
--   Client/Delivery         callbackWrapper, message.go, and the client ID of context.go
--   Client/Subscriptions    the map of subscriptions that a client keeps, and */* on it
--   Client/Lifecycle        NewClient, the pool, runConnect, stop, IsConnected
--   Client/Lifecycle/*      what NewClient refuses and makes; Callbacks: the handlers given to paho
--   Client/Reload, */*      client_resolver.go: newClient, multipleClients, the reloads, the resuming
--                           of subscriptions; Start and attemptSingleConnection of client.go
--   Client/Operations, */*  sequences of calls, lost connections and updates; */Watching,
--                           */Latest: watchAddressUpdates
--   Start, Start/*          exp_starter.go and utils.go; Start/Running: Run of client.go
--   Codec, Codec/Laws       encoder.go and decoder.go: the chains
--   Telemetry, */*          client_telemetry.go; Telemetry/Emitter: metrics.go
--   Consul                  consul/config.go, and the state and metrics of consul/resolver.go
--   Consul/Discovery, */*   the sections of consul/resolver.go that hold its mutex
--   Consul/Steps, */*       its goroutines as a step relation, with Stop and the end of Start
--   Consul/Created          the resolver from its creation by NewResolver on
--   Otel                    otelcourier: the state of an OTel, its recorders, and Stop
--   Otel/Settings, */*      otelcourier/options.go
--   Otel/Setup, */*         New of otelcourier/otel.go, and the instruments of metric.go
--   Otel/Calls              the middlewares of otelcourier/publish.go, subscribe.go, unsubscribe.go
--   Otel/Callback, */*      instrumentCallback of otelcourier/subscribe.go
--   Otel/Applied            ApplyMiddlewares of otelcourier/otel.go
--   Otel/Info               http.go, and otelcourier/info_handler.go
--   Otel/Counters, Transparent, Stopping
--                           what is counted, and what a client does behind an OTel
--   Tests/*                 concrete libraries, brokers and clients, and runs on them
--
-- How the code is read. An error is an optional value, a panic is an outcome of its own. A Go map
-- is an association list whose order stands for the iteration order, which Go leaves open: the
-- theorems hold for every order. One operation of a client is one function from the state before to
-- the state after; its mutexes make it one step, except in the resolver of the package consul,
-- whose sections are interleaved by a step relation. A loop around a select is a recursion over the
-- list of the events that the select meets. A duration is an int64 number of nanoseconds, the
-- counter of the round robin and the revision are uint64 and wrap around, a port is a uint16.
--
-- Parameters. What paho, the network, the encoders and the random source answer during one
-- operation is a record Broker. The record Libs holds the operations of xtools and go-multierror
-- with the laws that the client relies on: a set's membership laws, the results of MapConcurrent in
-- the order of its arguments, Reduce as a left fold from nil, Append as concatenation of what the
-- errors hold. Tests/Samples shows that they can hold. encoding/json, the tracer, the meter and the
-- propagator of OpenTelemetry are arguments of the definitions that call them. A topic transformer
-- is a function of the topic alone.
--
-- Fuel. newClient may run for ever, so its loop has a number of rounds, and ends as `unfinished`
-- without enough of them; n + 1 rounds are enough when round n is the first that connects. The
-- decimal text of n is made in n + 1 rounds. All other loops are structural.
--
-- Not modelled: the goroutines that disconnect old clients as goroutines (what they disconnect is
-- part of the result), a start that is still going on when the context of Run ends, the texts of
-- log calls, the adapter of slog/log.go, which only passes log calls on, and the attributes of the
-- resolver's metrics.
pub mod Base
pub mod Errors
pub mod Libs
pub mod Options
pub mod ClientOptions
pub mod Address
pub mod Paho
pub mod Middleware
pub mod Client
pub mod Consul
pub mod Start
pub mod Codec
pub mod Telemetry
pub mod Otel
pub mod Tests
