-- ===== src/RateLimit.antt =====
-- internal/ratelimit: token buckets, the feed limiter, and who decides how long a request waits.
pub mod Bucket
pub mod FeedLimit
pub mod Throttle
mod Tests
pub mod Defaults
pub mod Reachable
pub mod Limiter
pub mod Queue
pub mod Admission
