-- ===== src/Schedule.antt =====
-- The schedule store: internal/scheduler/schedule_store.go.
pub mod Server
pub mod Operations
pub mod Laws
pub mod Planned
pub mod Ids
pub mod Memory
mod Examples
