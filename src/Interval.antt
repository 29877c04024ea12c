-- ===== src/Interval.antt =====
-- The interval adjuster: internal/analyzer/interval_adjuster.go.
pub mod Settings
pub mod Adjust
pub mod Steps
pub mod Laws
pub mod Memory
mod Examples
