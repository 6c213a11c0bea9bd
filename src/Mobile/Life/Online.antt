-- ===== src/Mobile/Life/Online.antt =====
-- The library from Init to a Start that succeeds.
use ipfs_lite.Prelude.{
  arith, ◌≡◌, refl, Bool, true, false, Option, none, some, List, [], codes, Str, Dict, Error,
  Result, ok, err, panic, ok-bind,
}
use ipfs_lite.Prelude.Io.{bind-ok, lift-ok, lift, pure, ◌>>=◌}
use ipfs_lite.Extern.Bloom.{Bloom}
use ipfs_lite.Extern.Cipher.{Cipher}
use ipfs_lite.Extern.Datastore.{Datastore}
use ipfs_lite.Extern.Disk.{Disk}
use ipfs_lite.Extern.FileSystem.{FileSystem}
use ipfs_lite.Extern.Host.{AddrInfo, Host}
use ipfs_lite.Extern.Json.{Json}
use ipfs_lite.Daemon.{Common, init_root, new_common, start}
use ipfs_lite.Daemon.Started.{start_lem, started_options}
use ipfs_lite.Matrix.Content.{ContentMatrix}
use ipfs_lite.Matrix.Node.{NodeMatrix}
use ipfs_lite.Mobile.Life.{
  Library, Notice, HopOf, initialised, init_library, start_comm, start_node, with_node,
  is_node_online, id, stop_node,
}
use ipfs_lite.Peer.Start.{Outcomes, Node, autoclose}
use ipfs_lite.Peer.Start.Opened.{Runs}
use ipfs_lite.Mobile.Discovery.{new_discovery_service}
use ipfs_lite.Repo.Config.{Config}
use ipfs_lite.Repo.FsRepo.{FsRepo, open_repo, get_config}
use ipfs_lite.Repo.StateKeeper.{State}

module _ (fs : FileSystem) (ds : Datastore) (dk : Disk fs ds) (Filter F : Type 0)
    ⦃bl : Bloom Filter⦄ ⦃fj : Json Filter⦄ ⦃sj : Json (Dict (State Filter))⦄ ⦃cj : Json Config⦄
    ⦃nj : Json NodeMatrix⦄ ⦃mj : Json (Dict (ContentMatrix F))⦄ where
  -- What Init returns has no node, and an open repository.
  init_library-fresh :
      (root : Str) (new : Result Config) (hook : Option (List Notice)) (w w' : fs.World)
      (h : Library ds.World Filter F)
      → init_library fs ds dk Filter F root new hook w ≡ (ok h, w')
      → (h.comm.node ≡ none)
        × (get_config h.comm.repo ≡ ok h.comm.repo.config)
        × (h.discovery.id ≡ h.comm.repo.config.identity.peer_id)
  unfolding init_library new_common initialised get_config new_discovery_service
  init_library-fresh root new hook w w' h made =
      let (u, w1, e1, h1) =
        bind-ok (init_root fs ds dk Filter F root new)
          (λ u.
            new_common fs ds dk Filter F root (codes "0") >>= λ comm. lift (initialised hook comm))
          w made in
      let (comm, w2, e2, h2) =
        bind-ok (new_common fs ds dk Filter F root (codes "0"))
          (λ comm. lift (initialised hook comm)) w1 h1 in
      let (r, w3, e3, h3) =
        bind-ok (open_repo fs ds dk Filter F root)
          (λ (r : FsRepo ds.World Filter F).
            pure
              (record { root = root; port = codes "0"; repo = r; node = none; cancelled = false }))
          w1 e2 in
      let (ready, same) = lift-ok (initialised hook comm) w2 h2 in
      let unset : comm.node ≡ none = ground arith in kept comm ready unset
    where
      kept :
          (comm : Common ds.World Filter F)
          → initialised hook comm ≡ ok h
          → comm.node ≡ none
          → (h.comm.node ≡ none)
            × (get_config h.comm.repo ≡ ok h.comm.repo.config)
            × (h.discovery.id ≡ h.comm.repo.config.identity.peer_id)
      kept comm ready unset =
          let (cfg, e, rest) = ok-bind (get_config comm.repo) _ ready in
          (ground (arith, unset), ground (arith, e), ground (arith, e))

  -- After an Init that succeeds the identity of the library is that of the repository's configuration,
  -- and the discovery service has it, but IsNodeOnline does not answer false: it panics. After a Start
  -- that succeeds the node is online and the identity as before; Stop then returns, and once the node
  -- has closed it is no longer online.
  pub online_after_start :
      (hs : Host) (c : Cipher) (decode_psk : Str → Option Error) (boot : List AddrInfo)
      (should_bootstrap auto_download : Bool) (o : Outcomes) (root : Str) (new : Result Config)
      (hook : Option (List Notice)) (w w' : fs.World) (net net' : hs.World)
      (h : Library ds.World Filter F) (hop : HopOf ds.World Filter F)
      → init_library fs ds dk Filter F root new hook w ≡ (ok h, w')
      → start_node hs c decode_psk boot should_bootstrap auto_download o (some h) net
        ≡ (ok tt, (hop, net'))
      → (is_node_online (some h) ≡ panic)
        × (is_node_online hop ≡ ok true)
        × (id (some h) ≡ ok h.comm.repo.config.identity.peer_id)
        × (id hop ≡ id (some h))
        × (h.discovery.id ≡ h.comm.repo.config.identity.peer_id)
        × ((stopped : HopOf ds.World Filter F) × (stop_node hop ≡ ok stopped)
            × (is_node_online stopped ≡ ok false))
  unfolding start_node start_comm is_node_online with_node id stop_node autoclose
  online_after_start hs c decode_psk boot should_bootstrap auto_download o root new hook w w' net
        net' h hop made started =
      let (off, config, self) = init_library-fresh root new hook w w' h made in
      let (first, well, bad) = start_lem c decode_psk [] auto_download o h.comm in
      begun (start c decode_psk [] auto_download o h.comm).0 refl off config self well
    where
      Lives : Type 0
      Lives =
          (is_node_online (some h) ≡ panic)
          × (is_node_online hop ≡ ok true)
          × (id (some h) ≡ ok h.comm.repo.config.identity.peer_id)
          × (id hop ≡ id (some h))
          × (h.discovery.id ≡ h.comm.repo.config.identity.peer_id)
          × ((stopped : HopOf ds.World Filter F) × (stop_node hop ≡ ok stopped)
              × (is_node_online stopped ≡ ok false))

      ran : Result (Unit {0}) × Common ds.World Filter F
      ran = start c decode_psk [] auto_download o h.comm

      begun :
          (r : Result (Unit {0}))
          → ran.0 ≡ r
          → h.comm.node ≡ none
          → get_config h.comm.repo ≡ ok h.comm.repo.config
          → h.discovery.id ≡ h.comm.repo.config.identity.peer_id
          → (ran.0 ≡ ok tt
              → (n : Node) × (ran.1 ≡ record h.comm { node = some n })
                × Runs (started_options auto_download) n)
          → Lives
      begun (ok u) e off config self well =
          let (n, made_it, runs) = well e in
          let now : hop
              ≡ some (record h { comm = record h.comm { node = some n }; notified = true }) =
            ground (arith, e, made_it) in
          (
            ground (arith, off),
            ground (arith, now, runs.0),
            ground (arith, config),
            ground (arith, now),
            self,
            (
              some (record h {
                comm = record h.comm { node = some (autoclose n) };
                notified = true;
              }),
              ground (arith, now),
              refl,
            ),
          )
      begun (err x) e off config self well = absurd (ground (arith, e))
      begun panic e off config self well = absurd (ground (arith, e))
