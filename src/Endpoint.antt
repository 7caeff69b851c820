-- ===== src/Endpoint.antt =====
-- internal/endpoint: the classification of request paths.
pub mod Patterns
pub mod Classify
pub mod Known
mod Tests
