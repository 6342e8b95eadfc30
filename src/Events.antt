-- ===== src/Events.antt =====
-- src/workflowEvents.ts and the types of src/agentProvider.ts that events carry.
mod Content
mod Payloads
mod Stream
pub mod Failure
pub use Content.*
pub use Payloads.*
pub use Stream.*
