-- ===== src/Lib.antt =====
-- VAPN, a fleet of community workers that measure VPS providers, and its control plane. This is a
-- model of its Go code and the theorems about it.
--
-- The parts. Workers (internal/worker) enroll with a one-time token, sign every request with their
-- key, lease assignments and upload signed observations. The coordinator (internal/coordinator)
-- authenticates them against the registry (internal/registry), hands out the assignments that the
-- scheduler (internal/scheduler) derives from the published snapshot, and stores observations. The
-- builder (internal/builder) reads a dump of the routing table (internal/routing), derives the
-- targets and publishes the snapshot as a signed artifact (internal/artifact), which workers verify.
-- The aggregator (internal/aggregate) settles verdicts of the providers from the observations, and
-- the publisher (internal/publisher) pushes results from the outbox to VPS Advisor. They share one
-- PostgreSQL database.
--
-- Which file models what:
--   Database: the tables of migrations/*.sql, a table as the list of its rows.
--   Sql: statements and transactions of pgx. A connection carries for each statement to come
--     whether it fails, so a property of an action holds whichever step fails. Sql/Keeps,
--     Sql/Hoare and Sql/Triple are the rules for invariants of actions, Sql/Calm those for runs on
--     which nothing fails, Sql/Table and Sql/Counting those for the clauses of statements.
--   Registry: internal/registry/registry.go, a function per method (CreateWorker is
--     create_worker, SetState is set_state, and so on); its children prove what histories keep.
--   WireAuth: internal/wireauth/wireauth.go.
--   Coordinator/Auth: the middlewares of internal/coordinator/server.go.
--   Coordinator/Endpoints: handlers of internal/coordinator/server.go and rotation.go.
--   Coordinator/Leasing, Coordinator/Uploads: internal/coordinator/measurement.go.
--   Scheduler: internal/scheduler/scheduler.go.
--   Observations: internal/observation/observation.go.
--   Worker/Executor, Worker/Agent: internal/worker/executor.go, and agent.go with state.go.
--   Artifact: internal/artifact/manifest.go; Artifact/Publisher: internal/artifact/publisher.go.
--     Artifact/Release: `Publish` of publisher.go, and sqlite.go.
--   Addresses: the prefixes of net/netip, as far as the code uses them. Sorting: an ordered list,
--     for sort.Slice, order by and row_number.
--   Routing/Bogon, Routing/Table: internal/routing/bogon/bogon.go and mrtreader/reader.go.
--   Builder: internal/builder/builder.go. Builder/Extraction is extract, Builder/Loading enrich
--     and load, Builder/Targets deriveTargets, and Builder/Pipeline Run with the sanity gate and
--     publish.
--   Distribution: internal/builder/distribution.go; Distribution/Countries has also the functions
--     of builder.go that store the result.
--   Outbox: internal/publisher/publisher.go.
--   Advisor: internal/advisor/sync.go and internal/coordinator/advisorsync.go.
--   Aggregation: internal/aggregate/aggregate.go. Aggregation/Votes and Aggregation/Consensus are
--     ComputeWindow, Aggregation/Status is RollupStatus, with its children from Incident to Rollup
--     for the state machine that it implements, Aggregation/Anomalies is handleTransition and
--     checkLatencyAnomaly, Aggregation/Targets refreshTargetStatus, and Aggregation/Retention
--     Retention and a round of Run.
--   Trust: internal/trust/trust.go, with exact fractions.
--   Examples: the theorems at concrete inputs.
--
-- Conventions. Identifiers are numbers and text is bytes; times are nanoseconds; now() and the
-- program's own clock are arguments. What third-party code computes (SHA-256, Ed25519, base64, JSON,
-- the parsing of times, addresses and uuids) is an argument too, and a theorem that relies on it
-- says so. The difference of two times in wireauth.go is a word of 64 bits, with the limits and the
-- overflow of a time.Duration. A Commit that fails has changed nothing: one that the server carries
-- out although its answer is lost is not modelled. Rows that other transactions have locked are a predicate. An unordered result of SQL or
-- of a Go map is in the order of the list. The uploader's loop runs on fuel, the number of
-- observations that wait, and that is enough since each upload sends at least one.
--
-- The dump is a list of messages, as the third-party parser decodes them; the GeoIP database is the
-- function that it answers with. What an object store answers to a read is an argument, so nothing
-- is assumed of the store. The threshold of the sanity gate is a fraction of two numbers; trust
-- scores and the ratios of the aggregation are whole thousandths, and its medians are exact.
--
-- Not modelled: I/O (HTTP, files, S3, SQLite, ICMP), logging, metrics and the audit log; the
-- confidence, dissent and loss of a window and the shares of address space, which are
-- floating-point; the content of the status document; the pages of the administration that only
-- read.
mod Prelude
pub mod Sql
pub mod Database
pub mod Registry
pub mod WireAuth
pub mod Coordinator
pub mod Scheduler
pub mod Observations
pub mod Worker
pub mod Sorting
pub mod Addresses
pub mod Routing
pub mod Artifact
pub mod Builder
pub mod Distribution
pub mod Outbox
pub mod Advisor
pub mod Aggregation
pub mod Trust
mod Examples
