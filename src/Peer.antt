-- ===== src/Peer.antt =====
-- The node, internal/ipfs.
pub mod Files
pub mod Delete
pub mod Adder
pub mod Network
pub mod Dirs
pub mod Start
