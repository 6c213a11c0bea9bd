-- ===== src/Matrix.antt =====
-- The measurements of a node, internal/matrix/matrix.go: connections (Node), downloads (Content),
-- and their persistence (Keeper). Every method holds the keeper's mutex, so each is one step.
pub mod Node
pub mod Content
pub mod Keeper
pub mod Snapshot
