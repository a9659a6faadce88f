-- ===== src/Lib.antt =====
-- ProofLayer: the control plane hands signed endpoint tests to runners and follows their stages, and
-- the runner carries a test through its stages and reports them.
--
-- Parts, with paths from the repository's root:
--   * Base: shared helpers. Bytes, lists over the native numbers, association lists, `Outcome` for
--     code that returns a value or an error or panics, Go's clock and integers.
--   * RunQueue: control-plane/internal/runqueue. Model holds the data of queue.go and lifecycle.go.
--     Lifecycle and Transitions translate what UpdateStage, Complete, Acknowledge and the pruning do
--     to one record; Queue and Methods translate the methods of the queue (New, Enqueue, Lease,
--     Acknowledge, UpdateStage, Complete, Status) on the whole state, and History the search of
--     history.go. Progress, Invariant, Update, Prune, Retention, QueueInvariant, TakeJob,
--     Preservation, Changes, EnqueueInvariant and Runs carry the queue's invariant through every
--     method and every run. Verdicts, Leases, Safety, Signing, Idempotency, Paging and Pages hold
--     what the queue promises to its clients. Examples and Cases are tests, on the input of Stubs.
--   * Pipeline: runner/internal/pipeline/machine.go. Model and Machine translate the machine of the
--     seven stages (New, Start, Complete, SkipOptional, Snapshot); Order, Runs and Verdicts carry the
--     order of its stages through every run. Examples holds the tests.
--   * MvpStore: control-plane/internal/mvpstore/service.go. Model and Store translate the plan of
--     schedules, with DispatchDue, which calls Enqueue of RunQueue for each schedule that is due;
--     Spacing, Dispatch and Plans are about the plan, and Examples holds the tests.
--   * LocalAuth: control-plane/internal/localauth/service.go. Sessions translates CreateSession,
--     VerifySession and RevokeSession; Runs and Tokens are about the sessions and their tokens, and Examples holds
--     the tests.
--   * Runner: the small parts of the runner. Fields translates fieldvalidator/validator.go, Polling
--     splunk/poller.go, Limits policy/limits.go and Catalog scenario/catalog.go, all in
--     runner/internal; Sorting and Evidence are about the first, Attempts about the second, and
--     Examples holds the tests.
--   * Executor: runner/internal/executor with what it validates. Identity translates
--     identity/identity.go and correlation/id.go, Request job/request.go, Audit the events of
--     audit/file.go, Handlers the built-in handlers and Run the method Execute of executor.go, on the
--     data of Model; Refusals and Cleanup are about what the result says, Correlation
--     about the identifiers that the queue makes, and Examples holds the tests.
--   * Worker: runner/internal/worker/worker.go. Model holds the interfaces and the data, Run the
--     method RunOnce with its helpers on any control plane, in the monad of Steps, which also says
--     what it is that a sequence of calls returns. Advance says which updates the lifecycle accepts
--     one after the other, Store what the worker relies on in its control plane, Reports, Finish and
--     Outcomes how a run ends; QueueStore is the queue of RunQueue as the control plane of a runner, and Ends
--     puts the two together. Examples holds the tests.
--   * Verifier: runner/internal/controlplane/job.go. Check translates NewVerifier and
--     VerifyAndConsume on the data of Model; Replay and Renewal are about the nonces, Examples holds
--     the tests.
--   * Client: runner/internal/controlplane/client.go. Calls translates New and the four calls as
--     requests of a transport, on the data of Model, and makes a control plane for the worker of
--     them; Rules is about its guards and its lease, and Examples holds the tests.
--   * Routes: control-plane/internal/httpapi/runner_routes.go. Handle translates the authorization,
--     the routing and the handlers, on the data of Model and with the texts of Paths; Access is about
--     what a request may change, and Examples holds the tests.
--
-- Conventions. A method that holds a mutex is a function from the state before to the state after and
-- the answer. Each reading of the clock and each read of random bytes is an argument, in the order in
-- which the method takes it; no order of the readings is assumed. A time is a number of nanoseconds
-- since the year 1, as UTC, whose zero is Go's zero time. A map is an association list in which an
-- insertion replaces the entry of the key. Go's `int` has 64 bits. `panic` is a result of its own.
-- Structural recursion ends every loop; no definition runs on fuel.
--
-- Parameters: encoding/json, crypto/sha256, crypto/ed25519, encoding/base64 and the lower case of
-- characters above ASCII stand as the fields of `Platform`, with the laws that a theorem needs in
-- `Signs`. The zones and layouts of package time that the store uses are the fields of
-- `Calendar`. Random bytes are `Entropy`, and a theorem that needs new identifiers says so.
--
-- The other dependencies of the worker and the executor (the endpoint observer, the exporter, the
-- searches, the calls of the operating system, the audit file, the clocks) are the fields of their
-- records `World` and `Host`: what each call answers in the run.
--
-- The exchange of an HTTP request is the `Transport` of the client, and the decoding of a body is a
-- field of `HttpRequest`.
--
-- Not modelled: the HTTP handlers of the dashboard, the commands, the adapters to Windows and Splunk,
-- and files on disk, which are input and output; and HTTP between the client and the routes, so the
-- theorems on the worker and the queue take the calls as direct ones. The observer, and the passwords
-- and configuration of the administrator, on which the parts above do not depend, are not modelled
-- either.

pub mod Base
pub mod RunQueue
pub mod Pipeline
pub mod MvpStore
pub mod LocalAuth
pub mod Runner
pub mod Executor
pub mod Verifier
pub mod Client
pub mod Routes
pub mod Worker
