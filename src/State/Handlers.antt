-- ===== src/State/Handlers.antt =====
-- The cases of the switch of `reduceWorkflowState`, by the entity that an event is about.
pub mod Run
pub mod Phase
pub mod Admission
pub mod Settlement
pub mod Agent
pub mod Attempt
pub mod Trace
