-- ===== src/Repositories.antt =====
-- `src/common/services/git` and the directory matcher of `src/common/services/fs`: the repositories of the workspace
-- folders and their files.
pub mod Matcher
pub mod Ignoring
pub mod Repository
pub mod Branches
pub mod Service
mod Tests
