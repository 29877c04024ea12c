-- ===== src/Crawler.antt =====
-- The crawler's control flow: internal/crawler/fixed_pages.go, crawl.go,
-- proxy.go and adaptive.go, with the error classes of detect.go.
pub mod Pages
pub mod Failures
pub mod PageLaws
pub mod Keys
pub mod Throttle
pub mod Sleeps
pub mod Worker
pub mod WorkerLaws
pub mod Proxy
pub mod Crawl
pub mod Counts
pub mod Totals
pub mod Single
pub mod Memory
mod Examples
