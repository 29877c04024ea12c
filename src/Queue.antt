-- ===== src/Queue.antt =====
-- The Redis task and result queues: internal/pkg/redisqueue/client.go. The messages and the
-- interface of the server stand in the first two children, the client's operations in the next.
pub mod Messages
pub mod Server
pub mod Network
pub mod Pairs
pub mod Tasks
pub mod Results
pub mod Janitor
pub mod ResultJanitor
pub mod Recovery
pub mod Upkeep
pub mod Views
pub mod Dedup
pub mod Memory
pub mod Retries
pub mod RescueLaws
pub mod Outcomes
pub mod Races
mod Examples
pub mod Restart
