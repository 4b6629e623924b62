-- ===== src/Lib.antt =====
-- Watchkeepers: a verification library for the Go core of the repository.
--
-- The program runs agents ("watchkeepers") whose tools hold capabilities. Nine of its parts are
-- here.
--
-- Saga (core/pkg/spawn/saga) starts a watchkeeper. Saga.antt has the data and the audit payloads of
-- saga.go and compensator.go; Saga/Store.antt is MemorySpawnSagaDAO of dao_memory.go: insert,
-- insert_if_absent, get, update_step, mark_completed and mark_failed, one critical section each.
-- Saga/Runner.antt is Runner.Run with its rollback: run calls the steps in order, logs their rows
-- with the audit writer, and on a failure compensates the steps already done in reverse. The runner
-- takes the store as the interface SpawnSagaDao, and Saga/Store/Contract.antt fills the laws of it
-- that the runner's theorems use with the in-memory store. Steps and compensations change a world
-- of any type; their errors are values.
--
-- Kickoff (core/pkg/spawn) is what starts a saga once an operator has approved it. Kickoff.antt is
-- Kickoff of SpawnKickoffer and of RetireKickoffer (spawnkickoff.go, retirekickoff.go):
-- insert_if_absent under the approval's token, then either the row of a replay or the approved row
-- and the run; Kickoff/Rows.antt has the rows. It is put together with the store and the runner of
-- Saga; what the log's writer answers is an argument.
--
-- Capability (core/pkg/capability) is the token broker that steps and tools ask for access.
-- Capability.antt is Broker of broker.go: issue and issue_for_org, validate and validate_for_org,
-- revoke, close and prune_expired. A method with two critical sections takes what other goroutines
-- do in between as an argument; Capability/Schedule.antt has those actions. Fresh tokens and the
-- clock are arguments: instants are natural numbers of nanoseconds.
--
-- Outbox (core/pkg/outbox) carries rows of the audit outbox to the event bus. Outbox/Dedup.antt is
-- lruDedup, Outbox/Backoff.antt backoffFor up to its jitter, on 64-bit durations with their wrap-
-- around, Outbox/Consumer.antt the receive loop with handleEvent and publishWithRetry, and
-- Outbox/Lifecycle.antt Start and Stop, cut into the steps that other goroutines can come between,
-- with the end of the loop and its error as one of them: all of consumer.go. The retry loop recurs
-- on the attempts that are left, the doubling loop on the attempt number, the receive loop on what
-- the stream returns: each is the bound of the loop in the code, and none of them is fuel that can
-- run out.
--
-- Approval (core/pkg/approval) decides on tools that agents propose. Approval.antt has the proposal
-- and the events of proposal.go and events.go; Approval/Store.antt is InMemoryProposalStore of
-- proposalstore.go (mark_decided, unmark_decided, record_proposal, lookup); Approval/Callbacks.antt
-- is CallbackDispatcher.Dispatch of callbacks.go with its four branches; Approval/ActionId.antt is
-- the action id of card.go; Approval/Webhook.antt is the webhook of webhook.go from the decoded
-- payload on, with its status codes. Both claim a decision in the store, publish it and release the
-- claim on a failure. Approval/Race.antt has those three steps as actions of any number of
-- goroutines in any order.
--
-- Publish (core/internal/keep/publish) is the hub through which the keep server streams events to
-- its subscribers. Publish.antt is Registry of registry.go: subscribe, publish, close_locked and
-- close, each under the lock, and take_one for a reader. The order of Go's map iteration is an
-- argument, the subscription counter wraps at 64 bits, and a send on a closed channel or a second
-- close of one is recorded as a panic. Publish/Worker.antt is Worker of outbox.go, which feeds the
-- hub from the outbox table: tick with its transaction, and Run. What the database answers is an
-- argument, and Publish/Worker/Streams.antt puts the worker on top of the registry.
--
-- Auth (core/internal/keep/auth) decides who may talk to the keep server. Auth.antt is Verify of
-- auth.go with the payload's checks, Issue of testing.go, and RoleForScope of
-- core/internal/keep/db/scope.go, which gives the database role of a verified scope. Base64, JSON
-- and HMAC are arguments; Auth/Minted.antt names what a round trip needs of them.
--
-- ToolRegistry (core/pkg/toolregistry) collects the tools that the configured sources hold.
-- ToolRegistry/Config.antt is SourceConfig with its validation of config.go, ToolRegistry/Loading.antt
-- manifest.go, ToolRegistry/Scan.antt scan_source_dir and ToolRegistry/Build.antt build_effective of
-- scanner.go, ToolRegistry/Effective.antt the snapshot of effective.go, ToolRegistry/Registry.antt
-- Registry of registry.go (acquire in its two steps, release, recompute, the sweep of retired
-- snapshots) and ToolRegistry/Scheduler.antt SyncOnce of scheduler.go. A path is the list of its
-- elements; the disk, the JSON decoder, git, the verifier and the publisher answer through arguments.
--
-- EventBus (core/pkg/eventbus) carries events from the other parts to their subscribers in the
-- process. EventBus.antt is Bus of bus.go: each method is cut into the steps that other goroutines
-- can come between (publish_start and publish_step, subscribe_topic, unsubscribe, run_topic for a
-- topic's goroutine, close_step and close_channel), and a list of them is any interleaving. A
-- channel is what was sent on it and how much of it was taken out; a step that has to wait changes
-- nothing, and the call of a handler is one step: a handler returns.
--
-- Shared: Prelude has Boolean tests, lists and maps (a Go map is a function into Option), Go has
-- errors as chains with errors.Is and errors.As, contexts, trimmed text and UUIDs as numbers. A
-- message of an error is named by its format.
--
-- Not modelled: what the parts call (database, bus, clock, random source, messenger, HTTP) answers
-- through arguments; log lines keep their message and the fields named in each file; nil arguments
-- that make a constructor panic; the floating-point jitter; JSON and HMAC. In the Approval part the
-- parsing and printing of a UUID are arguments too. The other packages under core, the TypeScript
-- harness and the deployment files are left out.
pub mod Prelude
pub mod Go
pub mod Saga
pub mod Kickoff
pub mod Capability
pub mod Outbox
pub mod Approval
pub mod Publish
pub mod ToolRegistry
pub mod EventBus
pub mod Auth
