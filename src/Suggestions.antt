-- ===== src/Suggestions.antt =====
-- `src/common/suggestion/suggestion_service.ts` and what it asks before a request: the request for
-- suggestions, from the call of the client to the options that are given back.
pub mod Filter
pub mod Items
pub mod Service
mod Tests
