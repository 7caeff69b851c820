-- ===== src/Bodies.antt =====
-- internal/bodies: the files with the bodies of logged requests.
pub mod Rotator
pub mod Store
mod StoreTests
mod Tests
