-- ===== src/Di.antt =====
-- packages/lib_di/src/index.ts: the dependency injection container.
pub mod Classes
pub mod Validation
pub mod Order
pub mod Container
mod Tests
