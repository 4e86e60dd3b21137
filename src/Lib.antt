-- ===== src/Lib.antt =====
-- acp-kv: a replicated key-value store whose read and write quorums adapt to the health of the cluster.
-- A node stamps each write with a hybrid logical clock, stores it, and sends it to its peers; a write
-- succeeds where W nodes acknowledge it, and a read compares the values of R nodes and takes the latest. A
-- controller scores the cluster from the metrics and moves one unit between R and W at a time; a probe
-- watches the peers, and a reconciliation engine settles conflicts once a partition has healed.
--
-- The parts, and the files that model them:
-- - Hlc: internal/hlc/clock.go and proto.go. `now_hlc` is `Clock.Now`, `update` is `Clock.Update`.
-- - Storage: internal/storage/store.go. Staleness: internal/staleness/detector.go.
-- - Reconcile/Log: internal/reconcile/log.go. Reconcile/Engine: internal/reconcile/engine.go;
--   `serve_event` is one event of the loop of `Start`.
-- - Config: internal/config/config.go. Config/Load is `LoadConfig` and what it calls.
-- - Adaptive/Quorum, Window, Ccs, Adjuster: internal/adaptive/quorum.go, ccs.go and adjuster.go.
-- - Metrics and Metrics/Reader: internal/metrics/metrics.go and reader.go. Metrics/Registry is
--   `NewMetrics`.
-- - Proto: the messages of api/proto/acp.proto.
-- - Replication: internal/replication/coordinator.go, with the peers in Replication/Connections
--   and DNS discovery in Replication/Discovery.
--   `replicate_to`, `collect_acks` and `collect_values` are the goroutines and the loops of `Replicate`
--   and `QueryReplicas`.
-- - Health: internal/health/probe.go. Health/Probers is its goroutines, one access at a time and in any
--   order.
-- - Server: internal/server/server.go; `accept` is the handler `Replicate`.
-- - Node: cmd/acp-node/main.go, the parts that a node starts with.
-- - Cluster: several servers, and the calls between them, which may be lost or lose their answer.
--   Cluster/Async: the accesses of the handlers and of the engines of all nodes, one at a time and in any
--   order, as a step relation on the nodes, the `Replicate` calls on their way, and what runs;
--   Cluster/Async/Inv is the invariant, which Steps shows to be kept, and Whole puts the
--   accesses of a `Put` together.
-- - Bench: cmd/acp-adaptive-bench/main.go and benchmark/adaptive. Bench/Cell is the loop
--   of `runWorker` that lowers or raises a latency by compare-and-swap, one step for each access.
--   Bench/Collector is `Update` and `queryMetric` of the metrics collector. Bench/Run is `run`, with the
--   file of results in Bench/Results, what is printed in Bench/Report, and the workers' tickers and keys
--   in Bench/Pace.
-- - Ycsb: go-ycsb-vendor/db/acp/db.go, the binding of the repository's copy of YCSB.
-- - Client and Cli: pkg/client/client.go and cmd/acp-cli/main.go. `Service` is what the calls of a node
--   reply; Cli/Trips has a server in its place.
-- - Failure: the errors of all of them. Prelude: integers, lists, maps, circular buffers, floats.
-- - Examples and the modules named Tests: concrete runs.
--
-- How the model corresponds to the code:
-- - An operation takes the state of its component and returns the answer with the new state. A mutex
--   makes an operation one step. The readings of the clock, and the durations that a call measures, are
--   arguments; so are what the peers reply and in which order (`World`), a function for each call.
-- - An int64 is an integer, with its wrap-around written out in `add64` and `sub64`. A float64 is any
--   type with the operations of `Float64`, so what is shown of the controller's moves
--   depends on none of them.
-- - A map is a list of keys and values, and its order that of an iteration, which Go leaves open. An
--   error is a value of `Error`; a text that only goes to a log is left out, as is all logging.
-- - A circular buffer that is read out of range is `none`. Loops are structural, on the list or the
--   number of rounds that is left, so there is no fuel.
-- - gRPC and the Prometheus library are parameters: a dialler that may fail, a reply, and a registry
--   that returns a reading or an error. The model assumes nothing of what they return but what is
--   named below. So are the environment with Go's parsers, the resolver, the JSON codec, and files
--   with the CSV writer. Five assumptions are hypotheses by name: `IsRegisterer`, that the Prometheus
--   registry takes a metric exactly where its name is free and that different names stay different
--   with the namespace before them, `IsCsv`, that a row which the CSV writer took is in the file
--   once that is closed, `PrintsApart`, that `%d` prints different numbers differently, `IsCodec`,
--   that what the codec encodes decodes to the same fields, and `HasSeries`, that Prometheus has no
--   samples of the names that the load generator asks for and that are none of a node's series.
--
-- Not modelled: the servers, signals and shutdown of cmd/acp-node; the goroutines that run a ticker,
-- of which the body is modelled; the flags and signals of the load generator; the generated code of
-- api/proto; and go-ycsb-vendor apart from db/acp, a copy of another project. In Cluster/Async
-- health checks carry no timestamp, as the probe and the client send them.
pub mod Prelude
pub mod Failure
pub mod Metrics
pub mod Hlc
pub mod Storage
pub mod Staleness
pub mod Reconcile
pub mod Config
pub mod Adaptive
pub mod Proto
pub mod Replication
pub mod Health
pub mod Server
pub mod Node
pub mod Bench
pub mod Ycsb
pub mod Client
pub mod Cli
pub mod Cluster
pub mod Examples
