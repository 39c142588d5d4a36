-- ===== src/CircuitBreaker.antt =====
-- src/common/circuit_breaker/: the state of a breaker, the Node runtime under it (timers and an
-- `EventEmitter`), and the two implementations.
pub mod Host
pub mod Exponential
pub mod Fixed
mod Tests
