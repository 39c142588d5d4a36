-- ===== src/Messaging.antt =====
-- The parts that carry messages between a webview and its plugin.
pub mod Bus
pub mod Registry
pub mod Instance
pub mod Controller
pub mod Mediator
mod Tests
