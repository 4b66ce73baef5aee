-- ===== src/Lib.antt =====
-- noudleAgents: a local workspace in which a user and AI agents chat, delegate tasks and run jobs.
--
-- The program is a set of TypeScript services and clients. At its centre is the API service: its
-- relay service (services/api/src/domain/relay-service.ts) has one method per request, keeps all
-- state in a repository, and tells the clients of every change by an event, which the repository
-- appends to a log and the event hub publishes. Workers claim jobs and due schedules from the
-- repository. The desktop and the mobile app keep a copy of the workspace, which a reducer updates.
--
-- Which file models what:
--   Base: JavaScript's arrays, Map, strings and tests, over the native numbers; list lemmas.
--   Protocol: packages/protocol/src/index.ts and services/api/src/model.ts, the entities with their
--     source's fields in snake case, the inputs (an absent field is `none`), and each `XSchema.parse`
--     as `parse_x`, which trims and tests the fields as the schema says.
--   App: how a method runs. An action reads an `Env` (configuration, clock, randomUUID, the engine's
--     case mappings, its reading of numbers, time zones) and turns a `World` (repository, published
--     events, calls of the interrupt handler) into a result or a `Failure`
--     (services/api/src/domain/errors.ts) and a new world: what was written before a throw stays
--     written. Steps and Holds are the rules to reason about it.
--   Repository: services/api/src/database/memory-repository.ts. State is MemoryRepositoryState;
--     Entities (get, list, put, delete), EventLog (appendEvent, listEvents, currentCursor, snapshot),
--     Jobs (enqueue, claim, completeJob, failJob), Commit (commitMessageRun), ScheduleClaims
--     (claimDueSchedule, releaseScheduleClaim) and Push (push subscriptions).
--   Relay: services/api/src/domain/relay-service.ts. Lookup (the get and list methods), Events (id,
--     newEvent, emit), Agents, Conversations, Clearing (clearConversation), Messages, Hierarchy
--     (validateParent), Tasks, Collaboration, Runs (interruptRun), Approvals, Schedules (with
--     triggerSchedule and triggerWebhook in Triggering), Profile. Calls puts the methods together as a
--     service that answers one call after the other.
--   Schedules: services/api/src/schedules/cron.ts. Cron parses expressions; Occurrence searches for the
--     next occurrence. `Env` gives Number on texts of digits and what Intl.DateTimeFormat says.
--   Worker: services/api/src/worker.ts. Processing has the parts of a run, Jobs `process`, Polling
--     dispatchOneSchedule, drainOnce and poll. The runtime (services/api/src/runtime/runtime.ts) and the
--     push service are fields of the model's `Worker`.
--   Clients: apps/desktop/src/renderer/state/relay-state.ts and apps/mobile/src/state/relay.ts.
--   Codex: services/codex-worker/src/eventBuffer.ts, the buffer of a Codex process's events.
--   Sandbox: services/sandbox-manager/src/security.ts and viewAccess.ts; the HMAC and node's path
--     library are parameters.
--   Notifications: services/api/src/push-notifications.ts; the request to the push service is an
--     argument.
--   Tests: concrete runs.
--
-- Bounds and fuel: the loop over ancestors in validateParent runs on fuel, one round more than there
-- are tasks, since it visits no task twice; running out would be the failure `diverged`. The loop over
-- minutes in nextCronOccurrence has as many rounds as the source's limit gives it. Each method runs
-- without interruption: interleavings of two requests at their awaits are not modelled, a series of
-- calls is. The `process` that the source's poll starts and does not wait for is a call of its own
-- here. The events given to EventHub.publish are recorded, whether or not a workspace has listeners.
-- Timestamps are milliseconds; toISOString prints them in a fixed width, so comparing the texts is
-- comparing the numbers. Counters are unbounded numbers, which the program's doubles are up to 2 ^ 53.
-- structuredClone is the identity, since values are immutable here.
--
-- Not modelled: the PostgreSQL repository (SQL), HTTP routes, the runtimes themselves, computers,
-- connectors and artifacts (calls of other processes; the resolver of attachments is an argument), the
-- worker's timer and its stop, the user interfaces. The prose of error messages is left out: a
-- DomainError is its status and code.
pub mod Base
pub mod Protocol
pub mod App
pub mod Repository
pub mod Relay
pub mod Clients
pub mod Codex
pub mod Schedules
pub mod Worker
pub mod Sandbox
pub mod Notifications
pub mod Tests
