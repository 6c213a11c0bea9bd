-- ===== src/Lib.antt =====
-- ipfs-lite: the node of the datahop network, a content store on IPFS with replicated tags, groups
-- with members, and a record of the peers and downloads it has seen.
--
-- The files and the code, paths from the repository's root:
--   Prelude: shared names, lists, strings as lists of character codes, maps, errors, 64-bit numbers
--     and the monad Io of calls that change a world and may fail or panic.
--   Extern: the packages that the program calls, as interfaces of operations with the documented
--     laws: the datastore, JSON, floats, Bloom filters, files, the disk with its lock, the replicated
--     store and the parts of its keys, the keys of peers, the cipher, the merkle DAG with its
--     importers, the mutable file system, the libp2p host, the files that the commands read and write,
--     and the HTTP response with the packages of the gateway.
--   Matrix: internal/matrix/matrix.go. Node has the peers (BLEDiscovered, WifiConnected,
--     NodeConnected, NodeConnectionFailed, NodeDisconnected), Content the downloads, Keeper the
--     loading, the ticker and the flush.
--   Repo: internal/repo and internal/config. StateKeeper has LoadStateKeeper, AddOrUpdateState and
--     saveStates of state.go; of repo.go, StateFile has SetState, initState and openState, and FsRepo
--     Init, Open and Close; Config has NewConfig.
--   Replication: internal/replication. Tags has the keys of the store, Types its values, Group
--     group_replication.go, OpenGroup its CreateOpenGroup; of replication.go, Manager has the tag
--     index, Manager/Closing New and Close, Hooks the put and delete hooks that New installs, and
--     Watcher StartContentWatcher with
--     DownloaderTask. The hooks and the watcher change the node's own filter and group states (Repo)
--     and its content matrix (Matrix).
--   Peer: internal/ipfs. Files has AddFile, GetFile and Download of ipfs.go, Dirs its AddDir, Delete
--     its DeleteFile with descendants of util.go, Network its connections, providers and zeroconf
--     entries, Start its options, New and autoclose; Adder has adder.go.
--   Store: pkg/store and pkg/store/ipfs, the store of content under tags and in groups, over the
--     replication manager and over what Store/Content asks of a node. Peer/Dirs fills that interface
--     with the node.
--   Mobile: mobile/discovery.go, the discovery service of the mobile library, in Discovery, and the
--     functions of mobile/datahop.go: content and groups in Api, over the store and the replication
--     manager, the discovery with the watcher of the state in Control.
--     Control/Encounter follows two nodes from their discovery to the end of the hotspot.
--     Life has Init, Start, StartPrivate, Stop and the notifier of connections, and Life/Asking what the
--     application asks of the network.
--   Security: internal/security/security.go.
--   Daemon: pkg: New, Start and Stop of Common, over Repo and Peer/Start.
--   Cli: the command line, cli. Get, Add, Info and Daemon have the commands of cli/cmd, Out the
--     printing of cli/out, Socket how cli/datahop.go passes a command to the daemon.
--   Gateway: internal/gateway/gateway.go, from the request to the response.
--   Tests: the interfaces instantiated by maps and lists, and the theorems at concrete calls.
--
-- Correspondence: a Go map is an association list with `lookup` and `insert`; a nil pointer that is
-- dereferenced, and an index out of range, are `panic`; an error is the program's own error, or
-- `foreign` with a number for one of a called package. A peer ID, a key, a CID and JSON text are
-- bytes. The integer types are 64-bit patterns and their arithmetic wraps. A method that reads the
-- clock takes the time as an argument. A method that holds the mutex of its object for its whole run
-- is one function from state to state. The loops run over lists and trees, but for three that run on
-- fuel: Download, for which any fuel above the bound that a reader has on its reads is enough; the
-- output of the adder's directories, for which any fuel above the depth of the directories is; and the
-- names of the command get, for which any fuel above the number of files and one is. The goroutines of
-- Bootstrap run in one order.
--
-- Not modelled: the libp2p host and its protocols, the exchange of blocks, the HTTP server around the
-- gateway, the library of the commands, the mobile drivers, the publisher
-- of the state, which is a loop on a timer, the protobuf messages, and logging. What a Get fetches from
-- other nodes is not stored in the model.
pub mod Prelude
pub mod Extern
pub mod Matrix
pub mod Repo
pub mod Replication
pub mod Peer
pub mod Store
pub mod Mobile
pub mod Security
pub mod Cli
pub mod Daemon
pub mod Gateway
pub mod Tests
