-- ===== src/Extern.antt =====
-- What the program uses of other packages, as interfaces: operations, and the documented behaviour
-- that it relies on. Nothing here models code of the repository.
pub mod Dag
pub mod Mfs
pub mod Host
pub mod Datastore
pub mod Json
pub mod Floats
pub mod Bloom
pub mod FileSystem
pub mod Cipher
pub mod Crdt
pub mod Disk
pub mod KeyParts
pub mod Keys
pub mod Os
pub mod Web
