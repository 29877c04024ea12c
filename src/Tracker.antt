-- ===== src/Tracker.antt =====
-- The item state machine: internal/analyzer/state_machine.go. Data and the interface of the server
-- come first, then the transition table, the operations on one item, the batch and the scans.
pub mod Server
pub mod Transitions
pub mod Machine
pub mod Batch
pub mod Scans
pub mod Table
pub mod Sequential
pub mod Laws
pub mod Memory
mod Examples
