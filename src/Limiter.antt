-- ===== src/Limiter.antt =====
-- The rate limiter: internal/pkg/ratelimit/ratelimit.go.
pub mod Bucket
mod Examples
