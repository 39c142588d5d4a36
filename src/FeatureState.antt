-- ===== src/FeatureState.antt =====
-- `src/common/feature_state`: the checks of the features, and the manager that tells the client which of
-- them are engaged.
pub mod Checks
pub mod Language
pub mod Manager
mod Tests
