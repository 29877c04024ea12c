-- ===== src/Pipeline.antt =====
-- internal/analyzer/pipeline.go: the intake of one result (`processOne`), `alignToSlot`,
-- `collectSoldItemsInfo` and the next schedule time of `processResult`.
pub mod Align
pub mod Sales
pub mod Next
pub mod Process
pub mod Errors
mod Examples
