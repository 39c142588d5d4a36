-- ===== src/DuoAccess.antt =====
-- `src/common/services/duo_access`: which projects of the workspace may use Duo, and the state of the check.
pub mod Checker
pub mod Workspace
pub mod ApiCache
pub mod Check
mod Tests
