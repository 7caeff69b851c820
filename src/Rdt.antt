-- ===== src/Rdt.antt =====
-- internal/rdt: restricted data tokens, cached by merchant and operation, minted on demand.
pub mod TokenCache
pub mod Reports
pub mod Matcher
pub mod Middleware
pub mod Sources
pub mod Forwarding
pub mod Rejection
mod Tests
