-- ===== src/Lib.antt =====
-- Agents with ChatGPT, a bridge that lets a chat model plan work that local coding agents carry out.
-- It has two programs: the bridge (src), with the lanes of all providers, and the service of the GLM
-- lane (z2c/src). This library models the parts that decide what may run, when, and for whom.
--
-- The parts and how they interact:
--   * A workspace has one writer lease, a file that every provider's lane takes before it writes and
--     gives back afterwards. Taking it asks the queue's pause switch, which in turn asks the
--     operator's. After a crash the lease is reconciled with the tasks that are known.
--   * The GLM service keeps tasks and one queue per workspace in a state file. A task is admitted
--     with its queue place in one write, only for a session whose observed binding is admissible.
--     The dispatcher of a queue runs one task at a time and stores what comes of its turn.
--   * Callers of the GLM service are the local user, who holds the service secret, and devices that
--     were paired; the user opens workspaces to them, and each session belongs to one of them.
--   * The orchestrator takes a plan step by step: each step is given to the lane of its agent, with a
--     model chosen from that agent's live catalog, and its result waits for an audit that lets the
--     plan go on, has the step done again, or stops it.
--   * A model is named by what its agent's catalog advertises: names are matched in tiers, the
--     strictest first, and what is not proved to be missing is not called missing.
--   * A session of the ZCode lane belongs to the client that made it, who may let others steer it.
--   * What happens in the providers' sessions is published as facts in a log of activities, which
--     clients read page by page.
--   * A chat continues from a session of the bridge's registry, which follows the tasks that report to
--     it and keeps to the newest.
--   * The bridge's authorization page is unlocked by a pairing code.
--
-- Files, with the code that each models:
--   Prelude          shared tests, lists, maps, results, source values (JSON) and text patterns
--   Host             the process and the files that the bridge's code reads and writes
--   Queue/Policy     src/config/dispatch-policy.ts
--   Queue/Pause      src/execution/queue-state.ts
--   Slot/Lease       src/execution/slot.ts: the record, validateLock, readRaw
--   Slot/Operations  src/execution/slot.ts: acquire-, release-, renew- and bindWorkspaceSlot,
--                    markReservationDispatched
--   Slot/Reconcile   src/execution/slot.ts: reconcileWorkspaceSlot, reconcileUnknownWorkspaceSlots
--   Slot/History     any sequence of those calls on one workspace
--   Tasks/Model      z2c/src/core/tasks/model.ts
--   Tasks/View       z2c/src/core/tasks/model.ts: publicView
--   Tasks/Store      z2c/src/core/tasks/persistence.ts
--   Tasks/Recovery   z2c/src/core/tasks/persistence.ts: reconcileOnRestart
--   Tasks/Engine     z2c/src/core/tasks/engine.ts: pump, the end of a round, kick, the start of
--                    runTask, startQueuedTasks
--   Tasks/Engine/Steps     the rest of runTask after each await, cancelTask, getTask
--   Tasks/Engine/Sessions  collectExecutionEvidence, sendWithBusySettle
--   Tasks/Engine/Submitting  submitTask
--   Tasks/Idempotency      z2c/src/core/tasks/idempotency.ts
--   Tasks/Engine/Requests  getQueue, pauseQueue, resumeQueue, resolveKeyedTask, getOutput
--   Attestation      z2c/src/authz/attestation.ts, z2c/src/providers/entitlement.ts and types.ts,
--                    and governedBinding of z2c/src/core/tasks/engine.ts
--   Access           z2c/src/authz/pairing.ts, grants.ts and ownership.ts,
--                    z2c/src/service/security.ts, z2c/src/core/workspaces/registry.ts
--   Pairing          src/pairing/manager.ts
--   Orchestrator             src/execution/orchestrator-core.ts: the run, passBlockers, save
--   Orchestrator/Selection   src/execution/step-selection.ts
--   Orchestrator/Advance     src/execution/orchestrator-core.ts: lane, resolveStep, advance
--   Orchestrator/Operations  src/execution/orchestrator-core.ts: load, create, pause, claim,
--                            submitAudit, recover
--   Orchestrator/Calls       any sequence of those calls
--   Registry                 src/session/registry.ts: create, getOwned, updateFromTask, setStatus,
--                            restoreSnapshot, remove
--   Native                   src/execution/zcode-session-ownership.ts
--   Catalog                  src/execution/model-catalog.ts: entries, normalizeModelToken,
--                            displayBaseMatches, effortSupported
--   Catalog/Identity         src/execution/model-catalog.ts: matchIdentity
--   Catalog/Suffix           src/execution/model-catalog.ts: the texts of splitTrailingEffort
--   Catalog/Resolution       src/execution/model-catalog.ts: resolveModelSelection
--   Activity                 src/session-plane/store.ts: loadActivity, appendActivity, readActivity
--   Activity/Sessions        src/session-plane/store.ts: loadSessions, saveSessions
--   Activity/Journal         the log as a list of facts, each published once
-- A function of the source keeps its name in snake case. Each file's children hold what is proved
-- about it, by subject; `Tests` has the concrete runs.
--
-- How the code is read:
--   * State is passed explicitly. A call that may throw gives a result and the state after it, so
--     what was written before a throw stays written. Times, random ids, codes and secrets are
--     arguments of the call that makes them.
--   * A file of JSON is missing, unreadable or a value. A write replaces the file in one step, as
--     the code does by a rename. Where src/execution/slot.ts reads the lease and comes back to it,
--     other processes may have changed the files in between in any way.
--   * The task engine is a state with one entry for each dispatcher at work, which says what it waits
--     for. What runs between two awaits is one step, and what an awaited call brings is an argument
--     of the next. Calls of other callers, cancellation say, may come between any two steps. Writes
--     of the audit log are left out. The wait for an idle session follows the list of what is read
--     while it lasts.
--   * The orchestrator's disk says how many more saves go through, so that a history has a process
--     die, or its disk fill up, between any two of them. What the hooks and lanes answer is an
--     argument of each call. The lock file makes its calls run one after another.
--   * Numbers are natural: times, counts and limits. Where a subtraction could go below zero the code
--     compares it with a bound that is not negative, and so does the model at zero.
--   * A pattern of the source is a literal prefix, a class and bounds on the length. The bounds that
--     the code writes out (500 ordinary tasks, 200 outputs, 2000 sessions, 3 pairings, 5 tries, 5
--     retired secrets, 64 steps, 100 events a page, 4000 events a log, 50 changed files) are kept.
--     No definition needs fuel: each follows a list or a text.
--
-- Not modelled, and why: the schema of the orchestrator's plans, which a schema library reads, and its
-- lock file; sockets, child processes, tunnels and command lines (input and output); the parts
-- of the bridge that drive other programs; a copy of another project in third_party. SHA-256,
-- the path library and the file system, the clean-up of texts in src/session/registry.ts, and
-- what a provider answers are arguments. Of the GLM service's files other than the task state, a
-- write that fails is not modelled. Letters outside ASCII are not folded to upper or lower case.
mod Prelude
mod Host
pub mod Queue
pub mod Slot
pub mod Tasks
pub mod Activity
pub mod Catalog
pub mod Native
pub mod Orchestrator
pub mod Attestation
pub mod Access
pub mod Pairing
pub mod Registry
