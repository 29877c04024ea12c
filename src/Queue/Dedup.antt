-- ===== src/Queue/Dedup.antt =====
-- The promise of the task queue in internal/pkg/redisqueue/client.go: an IP has at most one task
-- that waits or is in processing, and while it has one, `ip:<id>` is in the pending set.
pub mod Steps
pub mod Calls
pub mod Operations
