-- ===== src/AiContext.antt =====
-- `packages/lib_ai_context`, and `src/common/ai_context_management`: the items of context that the user selects for a
-- chat, their providers, and the manager of the providers.
pub mod Items
pub mod Transformers
pub mod Provider
pub mod Manager
mod Tests
