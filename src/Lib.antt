-- ===== src/Lib.antt =====
-- The workflow runtime: a service runs scripts that call agents, records what happens as a stream of
-- events, and projects the stream into snapshots that clients read. Before an agent starts, its call
-- passes the circuit breaker of its provider and waits for a permit of the scheduler; a liveness
-- monitor watches each attempt. What is persisted is written under a lease of the store, whose
-- release waits for the writes under way.
--
-- Files, and the code they model:
--   Value, Events                  src/workflowEvents.ts and types of src/agentProvider.ts: the closed union
--                                  of events. An envelope is `WorkflowEvent`, its `type`, identities and
--                                  payload are `EventBody`.
--   State                          src/workflowState.ts. State/Snapshot holds the types of a snapshot,
--                                  State/Update `updateAgent` and `updateAttempt`, State/Derive
--                                  `finalizeDerivedState` and `closeNonterminalAgents`, State/Handlers the
--                                  cases of the switch, State/Reduce `reduceWorkflowState` and
--                                  `projectWorkflowState`.
--   Scheduler                      src/workConservingScheduler.ts: `WorkConservingScheduler`.
--   Circuit                        src/executionReliability.ts: `ProviderCircuitBreaker` and its leases.
--   Liveness                       src/executionReliability.ts: `AttemptLivenessMonitor`.
--   Reliability                    src/executionReliability.ts: `normalizeReliabilityPolicy` and its default.
--   Schema                         src/codexSchema.ts: `projectSyntheticNulls`, `combineProjections` and
--                                  `restore`.
--   Artifacts                      src/fileWorkflowStore.ts: `readResult`, `agentResultPage`,
--                                  `decodeCompleteUtf8Prefix` and the cursors of results.
--   Writes                         src/workflowWriteCoordinator.ts: `LeaseScopedWriteCoordinator`.
--   Journal                        src/workflowJournal.ts. Journal/Canonical and Journal/Keys make the keys of
--                                  calls, Journal/History reads the previous generation, Journal/Admission
--                                  is the constructor and `admit` of `InMemoryWorkflowJournalRun`,
--                                  Journal/Results its other methods, and Journal/Store
--                                  `InMemoryWorkflowJournal`.
--   Persistence                    src/persistentWorkflowJournal.ts: Persistence/Parsing is
--                                  `parseStoredJournal`, Persistence/Validation
--                                  `validateSnapshotCollection`, Persistence/Merging `mergeSnapshots`, and
--                                  Persistence/Durable the journal with its file, and
--                                  Persistence/Carried what JSON carries of it.
--   Events/Failure                 src/workflowEvents.ts: `isWorkflowAgentFailurePlaceholder`.
--   Js                             values of type `unknown`, and what the journal uses of the language;
--                                  Js/Passage is JSON.stringify followed by JSON.parse.
--   Common                         lists, options, results and relations that the parts share.
--
-- The journal records what a run's calls gave, under keys that chain them; a run that resumes another
-- takes over results from it. Its digest, the SHA-256 of node:crypto, is a parameter. Arrays that a run
-- and the journal share stand in the run, and the entry of the journal names the run. A value is a tree:
-- `enclosing` stands for a reference to an object around it. A number of at least 10^21 is a `fraction`,
-- given by its text. `decimal` runs on the number itself as fuel, and a number has no more digits than
-- it counts. A decoded text stands as its bytes in UTF-8, and the text of a cursor as its length and what
-- the pattern of a cursor finds in it. A read of a file gives as many bytes as an argument says.
--
-- An error that the code throws is the `err` of a `Result`, with the identity that its message names.
-- An optional field is an `Option`; the spread of a field that may be undefined keeps the old value.
-- Array.prototype.sort is a stable insertion sort, and findIndex with a check of the slot is
-- `modify_first`. Sequence numbers, call indices, times and counters are natural numbers. Timestamps and
-- identities are texts.
--
-- The scheduler, the circuit breaker and the coordinator are objects that promises and callbacks share.
-- Each is a state, each method a function on it, and a history is a list of calls in the order in which
-- they run; what the surroundings decide (aborted signals, the clock, whether ownership holds, the
-- result of an operation) is an argument of each call. A promise that is settled is an effect, or an
-- entry of a list. A loop of `enter` is a call for each of its rounds.
--
-- Besides `decimal`, three loops run on fuel. A round of the scheduler's `#drain` takes one
-- waiter from the queue, so the length of the queue is fuel enough. A reference of a schema is followed
-- at most once at a time, so the number of references is. A page of a result is at least one
-- byte, so the size of the file is.
--
-- Not modelled: the observer of the scheduler and the texts of error messages; the `phaseId` and
-- `attemptId` of those events where the projection does not read them; the retry delay, which computes
-- in floating point; the adaptation of a schema for Codex; the JSON texts and system calls of the
-- persistent journal and the rest of the stores; the runner, the service, workers and provider hosts; the
-- adapters of third-party libraries; the command lines and the standalone distribution.
pub mod Common
pub mod Value
pub mod Events
pub mod State
pub mod Scheduler
pub mod Artifacts
pub mod Circuit
pub mod Liveness
pub mod Writes
pub mod Js
pub mod Journal
pub mod Persistence
pub mod Reliability
pub mod Schema
