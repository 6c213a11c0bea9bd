-- ===== src/Repo.antt =====
-- The repository of a node, internal/repo: the state keeper of the groups (StateKeeper).
pub mod StateKeeper
pub mod StateFile
pub mod Config
pub mod FsRepo
