-- ===== src/PreProcessors.antt =====
-- `src/common/suggestion_client/pre_processors`: what is taken out of a request for suggestions before it is sent.
pub mod Items
pub mod ByteSize
mod Tests
