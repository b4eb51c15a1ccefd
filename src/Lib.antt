-- ===== src/Lib.antt =====
-- LocalRouter, a proxy that spreads requests for language models over local nodes and remote
-- services: a model of its core, and what it keeps to.
--
-- The program's parts. At the start (cmd/localrouter) a configuration is loaded; from it come the
-- registry of (provider, model) entries, a tracker of request limits for providers and one for
-- models, the state managers, the health monitor, the metrics and the router. The HTTP server hands
-- requests to the router. The router resolves a model's name by the registry, goes through the entries
-- in order, asks the provider's state, both trackers and both concurrency counters, calls the
-- provider, and on a failure blocks the provider or cools the model down and goes on with the other
-- entries.
--
-- Files and code:
-- - Prelude: Booleans, lists over the native numbers, Go's string order, integers, times and a stable
--   sort. GoMap: Go's map from strings, of which the rest knows only its laws.
-- - Provider (internal/provider/provider.go): requests, responses, chunks, errors. A provider is a
--   record of functions over the state that it may change.
-- - Adapters (internal/provider/*): Http and Scan are what all adapters share, a request with its
--   answer and the loop over the lines of a streamed body; OpenAi (openaicompat), Ollama, Anthropic,
--   Google and Cohere are the adapters, Factory is factory/factory.go. Made, Shape, Frames and Errors
--   are about what the factory makes, the shape of streams, what is read from events, and errors.
-- - Config (internal/config/config.go): the types, Checks with the two validations, and Priorities,
--   which is `fillPriorities`, and Load with `parseDurations` and the watcher's `reload`; Schema and
--   Valid are about what the checks accept.
-- - Limits (internal/limits/tracker.go): Window is the loop of `Record` and what it needs, Concurrency
--   one counter, Tracker the methods, Interleaving the compare-and-swap loops with any schedule.
-- - Metrics (internal/metrics/metrics.go). A counter behind a pointer in a map is the map's value.
-- - Health (internal/health/monitor.go): `check_node` is the part of `runNode` behind a check,
--   `run_round` a whole round with the wait's backoff.
-- - State: Manager is internal/state/manager.go; Report with Status is
--   internal/state/report_state.go; Persistence is internal/state/persistence.go.
-- - Registry (internal/registry/registry.go): `build` is `Build`, Discovery is
--   `SetDiscoveredModels`.
-- - Router (internal/router/router.go): Selection is `selectProvider`, Slots `acquireConcurrency` and
--   the closure it returns, Failover the branches behind a call, Retry `retryAfterDuration`, Loop the
--   loop that `Route` and `Stream` share, Calls these two, and Pump the goroutine that passes a
--   stream's chunks on, with its reader.
-- - Start (cmd/localrouter/main.go): Refused follows a refusal of a service from the adapter to the
--   router. Build is `buildProviders` with the limits, Boot `main` up to the router and the startup
--   probes, Reload the callback of the watcher.
-- - Server (internal/server): Incoming and Relay are sse.go, Pages is handlers.go.
-- - Discovery (internal/discovery): env.go, and the generated configuration of config.go.
--
-- State. A method that holds a mutex is one function from the old state to the new one. The router's
-- record `Services` holds all that changes while it routes; a provider's functions take and return
-- it, so that a call may stand for any other requests, checks and reloads that run meanwhile. What the
-- router holds itself (`Router`: its providers, registry and configuration) is a sequence, `Routers`,
-- with one router for each number of reloads; `Services` counts the reloads, and every round reads
-- the router of that time. The clock is a field of `Services` too, which every step between two
-- calls reads as one value. A time is a natural number whose zero is Go's zero time; a duration is an
-- integer, and neither overflows. Counters do not wrap, except that of `fillPriorities`, which is an
-- `int` of 64 bits. A hook that the code starts as a goroutine is a log of its calls. An order that Go leaves open, as
-- in `range` over a map, is the order of insertion; `sort.Slice`, which may leave equal elements in any
-- order, is a stable sort.
--
-- Parameters. What is not code of the repository is an argument: `send`, the HTTP client, from a request
-- and a state to an answer and the next state; the JSON codecs of the vendors, of the server and of the
-- files; the YAML decoder and `os.ExpandEnv`; what the operating system lets a save do; the rounds that a `select` finds ready; the
-- rendering of the report's template; `time.ParseDuration`, `Duration.String` and
-- `strings.TrimSpace`.
--
-- Fuel. The loop of the router takes one unit for a round; `run` gives one more than there are
-- entries, the subject of Router.Termination. The printing of a status code has twenty
-- units for its digits.
--
-- Not modelled: the scan of the network, the notifications of the watcher and request ids, which are input and
-- output around these parts; flags, signals, logs, the HTTP routes and the listener.
pub mod Prelude
pub mod GoMap
pub mod Limits
pub mod Metrics
pub mod Provider
pub mod Config
pub mod Registry
pub mod Health
pub mod State
pub mod Router
pub mod Adapters
pub mod Start
pub mod Server
pub mod Discovery
