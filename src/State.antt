-- ===== src/State.antt =====
-- src/workflowState.ts: the projection of a run's event stream into snapshots.
pub mod Snapshot
pub mod Update
pub mod Derive
pub mod Handlers
pub mod Reduce
pub mod Frame
pub mod Guards
pub mod Attempts
pub mod Agents
pub mod Traces
pub mod Counts
pub mod Closing
pub mod Ending
pub mod Phases
pub mod Isolation
pub mod Applicable
pub mod Invariant
pub mod Members
mod Samples
