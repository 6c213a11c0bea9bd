-- ===== src/Mobile/Life.antt =====
-- The life of the mobile library's node, mobile/datahop.go: Init, Start, StartPrivate, Stop and Close,
-- the notifier of connections, and the questions that the library answers by itself.
pub mod Begun
pub mod Asking
pub mod Meeting
pub mod Online
use ipfs_lite.Prelude.{
  ℕ, Bool, true, false, Option, none, some, List, [], ◌∷◌, ◌++◌, map, codes, Str, Dict, Int64,
  Error, Result, ok, err, panic, if◌then◌else◌, ◌>>=◌,
}
use ipfs_lite.Prelude.Io as Effects
use ipfs_lite.Prelude.Io.{Io, lift}
use ipfs_lite.Extern.Bloom.{Bloom}
use ipfs_lite.Extern.Datastore.{Datastore}
use ipfs_lite.Extern.Disk.{Disk}
use ipfs_lite.Extern.FileSystem.{FileSystem}
use ipfs_lite.Extern.Cipher.{Cipher}
use ipfs_lite.Extern.Crdt.{Crdt}
use ipfs_lite.Extern.Host.{AddrInfo, Host}
use ipfs_lite.Extern.Json.{Json}
use ipfs_lite.Daemon.{Common, init_root, new_common, start}
use ipfs_lite.Matrix.Content.{ContentMatrix}
use ipfs_lite.Repo.StateKeeper.{State}
use ipfs_lite.Matrix.Keeper.{MatrixKeeper}
use ipfs_lite.Matrix.Node.{NodeMatrix, node_connected, node_disconnected}
use ipfs_lite.Matrix.Snapshot.{Matrices, snapshots}
use ipfs_lite.Mobile.Discovery.{DiscoveryService, new_discovery_service, add_advertising_info}
use ipfs_lite.Peer.Network.{bootstrap}
use ipfs_lite.Peer.Start.{Outcomes, Node, autoclose}
use ipfs_lite.Replication.Manager.{unfinished}
use ipfs_lite.Replication.Types.{ContentMetatag}
use ipfs_lite.Repo.Config.{Config}
use ipfs_lite.Repo.FsRepo.{FsRepo, get_config}
use ipfs_lite.Store.Node as StoreNode
use ipfs_lite.Store.Node.{addr_info, own_addresses}

-- The calls of the application's ConnectionManager.
pub data Notice : Type 0 where
  peer_connected peer_disconnected : Str → Notice

-- What `hop` points to: the node, the discovery service, whether the network notifier was registered
-- with the host, and the calls of the hook, the newest first, where there is a hook.
pub record Library (Store Filter F : Type 0) : Type 0 where
  pub comm : Common Store Filter F
  pub discovery : DiscoveryService
  pub notified : Bool
  pub hook : Option (List Notice)

-- A call of the hook, where it is set.
unfoldable pub tell : Notice → Option (List Notice) → Option (List Notice)
tell n none = none
tell n (some calls) = some (n ∷ calls)

-- `ServiceTag` of internal/ipfs
abbrev pub service_tag : Str
service_tag = codes "_datahop-discovery._tcp"

-- The end of `Init`, on what New has returned: the service of the configured peer, with the library's
-- own notifee, of number 0.
unfoldable pub initialised :
    {Store Filter F : Type 0}
    → Option (List Notice)
    → Common Store Filter F
    → Result (Library Store Filter F)
unfolding new_discovery_service
initialised hook comm = get_config comm.repo >>= λ cfg.
    let service =
      new_discovery_service cfg.identity.peer_id 1000 20000 service_tag
        comm.repo.m_keeper.node_matrix in
    ok (record {
      comm = comm;
      discovery = record service { notifees = 0 ∷ [] };
      notified = false;
      hook = hook;
    })

module _ (fs : FileSystem) (ds : Datastore) (dk : Disk fs ds) (Filter F : Type 0)
    ⦃bl : Bloom Filter⦄ ⦃fj : Json Filter⦄ ⦃sj : Json (Dict (State Filter))⦄ ⦃cj : Json Config⦄
    ⦃nj : Json NodeMatrix⦄ ⦃mj : Json (Dict (ContentMatrix F))⦄ where
  -- `Init`, with what NewConfig returns.
  unfoldable pub init_library :
      Str → Result Config → Option (List Notice) → Io fs.World (Library ds.World Filter F)
  unfolding initialised
  init_library root new hook = Effects.◌>>=◌ (init_root fs ds dk Filter F root new) λ _.
      Effects.◌>>=◌ (new_common fs ds dk Filter F root (codes "0"))
        λ comm. lift (initialised hook comm)

-- `hop`
abbrev pub HopOf : Type 0 → Type 0 → Type 0 → Type 0
HopOf Store Filter F = Option (Library Store Filter F)

module _ {Store Filter F : Type 0} where
  -- The goroutine of `Start` and `StartPrivate`, which both wait for: the node is started, and on
  -- success the notifier is registered.
  unfoldable pub start_comm :
      Cipher
      → (Str → Option Error)
      → Str
      → Bool
      → Outcomes
      → Library Store Filter F
      → Result (Unit {0}) × Library Store Filter F
  start_comm c decode_psk key auto_download o h =
      let (r, comm) = start c decode_psk key auto_download o h.comm in
      elim r [
        | ok _ ↦ (ok tt, record h { comm = comm; notified = true })
        | err e ↦ (err e, record h { comm = comm })
        | panic ↦ (panic, record h { comm = comm })
      ]

  module _ (hs : Host) where
    -- `Start`: the bootstrap peers are contacted where that is asked for and the node started.
    unfoldable pub start_node :
        Cipher
        → (Str → Option Error)
        → List AddrInfo
        → Bool
        → Bool
        → Outcomes
        → HopOf Store Filter F
        → hs.World
        → Result (Unit {0}) × (HopOf Store Filter F × hs.World)
    unfolding start_comm
    start_node c decode_psk peers should_bootstrap auto_download o none w =
        (err Error.node_not_running, (none, w))
    start_node c decode_psk peers should_bootstrap auto_download o (some h) w =
        let (r, h') = start_comm c decode_psk [] auto_download o h in
        elim r [
          | ok _ ↦ (ok tt, (some h', if should_bootstrap then (bootstrap hs peers w).1 else w))
          | err e ↦ (err e, (some h', w))
          | panic ↦ (panic, (some h', w))
        ]

  -- `StartPrivate`
  unfoldable pub start_private :
      Cipher
      → (Str → Option Error)
      → Str
      → Bool
      → Outcomes
      → HopOf Store Filter F
      → Result (Unit {0}) × HopOf Store Filter F
  unfolding start_comm
  start_private c decode_psk [] auto_download o h = (err Error.blank_group_key, h)
  start_private c decode_psk (b ∷ key) auto_download o none = (err Error.node_not_running, none)
  start_private c decode_psk (b ∷ key) auto_download o (some h) =
      let (r, h') = start_comm c decode_psk (b ∷ key) auto_download o h in (r, some h')

  unfoldable pub with_matrix : NodeMatrix → Library Store Filter F → Library Store Filter F
  with_matrix m h = record h {
    comm = record h.comm {
      repo = record h.comm.repo { m_keeper = record h.comm.repo.m_keeper { node_matrix = m } };
    };
  }

  -- `Connected` of the notifier: what is sent to the download channel, with the library as it is then.
  -- A peer is its text.
  unfoldable pub on_connected :
      (db : Crdt)
      → ⦃mj : Json ContentMetatag⦄ → Int64
      → Str
      → db.World
      → Library Store Filter F
      → Result (List ContentMetatag) × Library Store Filter F
  unfolding with_matrix tell
  on_connected db now peer w h =
      let h' = with_matrix (node_connected now peer h.comm.repo.m_keeper.node_matrix) h in
      elim h.comm.node [
        | none ↦ (panic, h')
        | some _ ↦ elim (unfinished db h'.comm.repo.m_keeper.content_matrix w) [
          | panic ↦ (panic, h')
          | ok sent ↦ (ok sent, record h' { hook = tell (peer_connected peer) h'.hook })
          | err _ ↦ (ok [], record h' { hook = tell (peer_connected peer) h'.hook })
        ]
      ]

  -- `Disconnected` of the notifier
  unfoldable pub on_disconnected :
      Int64 → Int64 → Str → Library Store Filter F → Result (Library Store Filter F)
  unfolding with_matrix tell
  on_disconnected ended down peer h =
      node_disconnected ended down peer h.comm.repo.m_keeper.node_matrix >>= λ m.
      ok (record (with_matrix m h) { hook = tell (peer_disconnected peer) h.hook })

  -- A call of comm.Node, which panics where `hop` or the node is nil.
  unfoldable pub with_node : {A : Type 0} → HopOf Store Filter F → (Node → A) → Result A
  with_node none f = panic
  with_node (some h) f = elim h.comm.node [ none ↦ panic | some n ↦ ok (f n) ]

  -- `IsNodeOnline`
  unfoldable pub is_node_online : HopOf Store Filter F → Result Bool
  unfolding with_node
  is_node_online none = ok false
  is_node_online (some h) = with_node (some h) (λ n. n.online)

  -- `ID`
  unfoldable pub id : HopOf Store Filter F → Result Str
  id none = panic
  id (some h) = get_config h.comm.repo >>= λ cfg. ok cfg.identity.peer_id

  -- `Stop`: the node stops when its context is done.
  unfoldable pub stop_node : HopOf Store Filter F → Result (HopOf Store Filter F)
  stop_node none = panic
  stop_node (some h) = elim h.comm.node [
    | none ↦ panic
    | some n ↦ ok (some (record h { comm = record h.comm { node = some (autoclose n) } }))
  ]

  -- `UpdateTopicStatus`
  unfoldable pub update_topic_status :
      Str → Str → HopOf Store Filter F → Result (HopOf Store Filter F)
  update_topic_status topic value none = panic
  update_topic_status topic value (some h) =
      ok (some (record h { discovery = add_advertising_info topic value h.discovery }))

  -- `Matrix`
  unfoldable pub matrix : ⦃j : Json (Matrices F)⦄ → HopOf Store Filter F → Result Str
  matrix none = err Error.node_not_running
  matrix ⦃j⦄ (some h) = j.marshal (snapshots h.comm.repo.m_keeper)

  -- `State` and `DiskUsage`, given the filter's JSON and what the datastore uses.
  unfoldable pub state : (Filter → Result Str) → HopOf Store Filter F → Result Str
  state marshal none = panic
  state marshal (some h) = marshal h.comm.repo.state

  unfoldable pub disk_usage : (Store → Result Int64) → HopOf Store Filter F → Result Int64
  disk_usage usage none = panic
  disk_usage usage (some h) = usage h.comm.repo.store
