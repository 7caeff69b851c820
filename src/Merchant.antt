-- ===== src/Merchant.antt =====
-- internal/merchant: whose request it is.
pub mod Resolver
mod Tests
