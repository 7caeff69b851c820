-- ===== src/Cache.antt =====
-- internal/cache: what the proxy stores and for how long.
pub mod Memory
pub mod Keys
pub mod Tiers
pub mod Invalidation
pub mod Isolation
pub mod Stale
pub mod Paths
pub mod Ttl
pub mod Http
pub mod Reads
pub mod Serve
pub mod Post
pub mod Batch
pub mod Middleware
mod Samples
mod HandlerTests
mod BodyTests
mod Tests
