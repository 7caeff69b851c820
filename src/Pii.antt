-- ===== src/Pii.antt =====
-- internal/pii: personal data in paths, headers, queries and bodies.
pub mod Rules
pub mod Registry
pub mod Query
pub mod Json
pub mod Engine
mod Tests
