-- ===== src/Tracking.antt =====
-- src/common/tracking/code_suggestions/: the events of a suggestion's life, the state manager that
-- decides which may follow which, and the tracker that reports them to the instance.
pub mod Events
pub mod State
pub mod InstanceTracker
mod Tests
