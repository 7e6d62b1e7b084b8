-- ===== src/Lib.antt =====
-- UFO Observation Command: a Go service that runs survey missions of acoustic buoys. The packages
-- that keep state in memory or decide by rules are modelled here.
--
-- Parts and files, with the paths from the repository's root:
--   * internal/arrayops, in ArrayOps and its children: the records (Types: types.go), their copies
--     (Copy: copy.go), keys, guards and the classes of errors (Policy: policy.go, security.go,
--     errors.go), the store of bundles, buoys, missions, callbacks, idempotent responses, sessions
--     and events (Store: store.go), leases and capacities (Lease, Capacity: runtime.go), retries and
--     steps that run once (Worker: worker.go).
--   * internal/service/acoustic_control.go, in AcousticControl: the use cases over one such store,
--     one table of capacities and one lease. AcousticControl.History has every call that changes
--     state as a constructor, and sequences of calls.
--   * internal/telemetry, in Telemetry and its children: streams of segments that are opened, filled,
--     checked, sealed and awaited (Types, Stream: types.go, stream.go), fenced leases, capacities and
--     deliveries (Lease, Capacity, Delivery: coordination.go), decoding, batches and the classes of
--     errors (Classify, Batch: runtime.go).
--     Broadcast (coordination.go) has the actions that the calls of the broadcaster are made of,
--     Consumer RunWorker.
--   * internal/service/telemetry_control.go, in TelemetryControl: the use cases over these.
--   * internal/domain, in Domain and its children: missions, recovery jobs, dive windows, operators,
--     assignments, bulk requests and the graphs of their states (status.go, plan.go, round.go,
--     constraints.go, recovery_job_rules.go, array_operator.go, permissions.go, assignment.go,
--     array_operator_rules.go, bulk.go, state_machine.go, transition.go).
--     validation.go and intervention.go are in Domain.Validation, ValidateChamberLoad of
--     link_policy.go is in Domain.ChamberLoad. Domain.Search has filter.go, search.go, labels.go,
--     limits.go, progress.go, report.go and summary.go; a map that Go walks in an order of its own
--     is a list, in any order.
--   * internal/repository, in Repository and its children: the interface that the services use
--     (Types: repository.go), the tables (Tables), transactions and what statements share (Driver:
--     postgres.go), the statements on missions, operators and assignments (Missions), on jobs
--     (Jobs), on dive windows (Windows), on reports, incidents and audit events (Reports), from
--     postgres.go, business_checks.go, array_operators.go, array_operators_query.go,
--     array_operator_roles.go, assignment.go, round.go and intervention.go, and their assembly
--     (Postgres). Repository.Statement has the statements that write these tables as constructors,
--     and sequences of statements; `idempotency_keys` is apart, in Service.Idempotency.Keys.
--     Repository.Expiry (reconcile.go) rejects the jobs whose time is over, Repository.Activation
--     (assignment_worker.go) activates the assignments that are due, Repository.Policy
--     (transaction.go, transaction_policy.go) tries transactions again.
--   * internal/service, in Service and its children: the use cases over any repository (Environment,
--     Checks, Missions, Jobs, Windows, Reports, Operators: service.go, validation.go, bulk.go,
--     mooring.go, round.go, intervention.go, array_operators.go, array_operators_query.go,
--     assignment.go, policies.go), those of requests that write as constructors (Command; the jobs
--     of the worker, MarkExpiredRecoveryJobs and ActivateDueAssignments, and IdempotentCreate and
--     ReplayOr, which run a function of their caller, are not among them), the laws that they rely on (Contract, Trail) and
--     the repository in PostgreSQL that has them (Postgres, Postgres.History, Postgres.Completion).
--     Service.Idempotency: internal/idempotency/store.go, idempotency.go and idempotency_pg.go, over
--     the table of internal/repository/idempotency.go (Keys).
--   * internal/worker, in Worker and its children: retries (Retry: retry.go), the lease (Lease:
--     lease.go), the log of outcomes (Outcome: outcome.go), the counters and the health check
--     (Metrics: metrics.go, health.go), the processor of dive windows (Processor:
--     dive_window_processor.go) and the loops and rounds of the other jobs (Background).
--   * internal/audit, in Audit (audit.go, filter.go, export.go) and Audit.Links (chain.go).
--   * internal/pagination/page.go, in Pagination.
-- Base has what they share: Boolean tests, integers, texts, lists, Go maps and Go errors.
--
-- How Go is read:
--   * A struct is a record, a method with a pointer receiver a function from the state to a result
--     and the next state, also on its error paths; `Method` is that type. A method that holds the
--     mutex throughout is one step. Where a method has two critical sections (ChangeRole,
--     OnceStep.Run) each is a function of its own, so that calls can come between them.
--   * `int`, `int64` and `time.Duration` are integers; sums and increments that can pass 2^63 wrap
--     around (`inc64`, `add64`). Token counters of 64 bits are natural numbers modulo 2^64. An
--     instant is its nanoseconds since Go's zero time; adding a duration to an instant does not wrap
--     in the range that `time.Time` covers.
--   * A map is an association list with distinct keys, read by `get` and written by `put`. The order
--     in which Go walks a map is the order of that list, so a statement for every list covers every
--     order; the order of a Publish is given with it. A set is a list.
--   * A string is a sequence of code points. `strings.TrimSpace` and `strings.Join` with NUL are
--     written out; texts of statuses and roles are strings, as in Go, and not closed types.
--   * An error is a chain of wrapped causes: package variables, `fmt.Errorf` with `%w` and the error
--     structs. Its text is the literal in the code, with the verbs of the format unexpanded.
--   * Code that is passed in or comes from a library is a parameter: the hexadecimal SHA-256 digest
--     (`digest_hex`), the audit of a sealing, decoders, sinks, steps, operations, timers and the
--     context, each a function of a world of any type `W`. Where a statement counts calls it names
--     the counts and what each call does to them.
--   * A SQL statement is a function on the tables: rows with a primary key are a map from it, and
--     UPDATE tests and changes the row of its key. What else the server does is a parameter, the
--     driver: it may fail any statement, BEGIN or COMMIT, for a constraint, a lost connection or a
--     context that is over, and gives the time and new identifiers. A transaction whose function fails
--     leaves the tables; when COMMIT reports an error the driver says whether it was applied all the
--     same, as it may be when the connection is lost. A transaction is one step where whole use cases
--     are run; a sequence of statements is any schedule of transactions that commit. What PostgreSQL
--     makes of the text of a `jsonb` is a parameter. A `float64` is its 64 bits.
-- RunSteps runs on fuel, with the test of the source: a number of attempts below 2^63 - 1 needs one
-- more than it (run_steps_bounded). Other loops over a number of attempts are recursions on that
-- number, which bounds them. The worker's delay doubles at most as often as the attempt's number.
--
-- Not modelled: HTTP handlers, migrations, configuration, the server's start and the console's
-- views, which pass data between libraries; the queries of the repository that only list rows; the
-- clock package; of internal/telemetry Limiter; of internal/domain the redaction
-- and the rules on floating-point risk scores.
pub mod Base
pub mod ArrayOps
pub mod AcousticControl
pub mod Telemetry
pub mod TelemetryControl
pub mod Domain
pub mod Repository
pub mod Service
pub mod Worker
pub mod Audit
pub mod Pagination
