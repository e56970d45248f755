-- ===== src/Domain.antt =====
-- internal/domain: deterministic registry state and transitions.
pub mod Errors
pub mod Types
pub mod Guid
pub mod Json
pub mod Payload
pub mod Transition
pub mod Equal
pub mod Snapshot
pub mod Queries
pub mod State
pub mod Machine
pub mod Register
pub mod Commands
pub mod Execute
pub mod Tests
