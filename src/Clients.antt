-- ===== src/Clients.antt =====
-- `src/common/suggestion_client`: the clients that answer a request for suggestions, and how they are put together.
pub mod Requests
pub mod Pipeline
pub mod Direct
pub mod Service
mod Tests
