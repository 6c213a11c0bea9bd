-- ===== src/Tests.antt =====
-- Concrete worlds for the interfaces (Codec, Worlds), and the theorems applied in them, one child for
-- each part of the program.
pub mod Codec
pub mod Codecs
pub mod Worlds
pub mod Disk
pub mod Blocks
pub mod FsRepo
pub mod Services
mod OpenGroup
mod Matrix
mod Repo
mod Group
mod Songs
mod Hooks
mod Index
mod Trees
pub mod Nodes
pub mod Stores
pub mod OsFiles
mod Commands
mod Requests
pub mod Daemons
mod Pages
mod Phones
