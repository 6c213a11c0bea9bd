-- ===== src/Replication.antt =====
-- The replication manager, internal/replication: its data (Types), the keys that it stores under
-- (Tags), the groups (Group).
pub mod Types
pub mod Tags
pub mod Group
pub mod Manager
pub mod Hooks
pub mod Watcher
pub mod OpenGroup
