-- ===== src/Mobile/Life/Asking.antt =====
-- What the application asks of the network, mobile/datahop.go. `marshal` is `proto.Marshal` of a list of
-- texts.
use ipfs_lite.Prelude.{none, some, List, [], ◌∷◌, codes, Str, Error, Result, ok, err, panic}
use ipfs_lite.Extern.Host.{AddrInfo, Host}
use ipfs_lite.Mobile.Life.{HopOf, with_node}
use ipfs_lite.Peer.Network.{bootstrap}
use ipfs_lite.Store.Node as StoreNode
use ipfs_lite.Store.Node.{addr_info, own_addresses}

module _ (hs : Host) where
  -- The loop of `ConnectWithAddress`, up to the first error.
  unfoldable pub connect_all : List AddrInfo → hs.World → Result (Unit {0}) × hs.World
  connect_all [] w = (ok tt, w)
  connect_all (pi ∷ pis) w =
      let (r, w') = StoreNode.connect hs pi w in
      let later = connect_all pis w' in
      elim r [ ok _ ↦ later | err e ↦ (err e, w') | panic ↦ (panic, w') ]

module _ (hs : Host) {Store Filter F : Type 0} where
  -- `Peers`
  unfoldable pub peers : (List Str → Result Str) → HopOf Store Filter F → hs.World → Result Str
  peers marshal none w = err Error.no_peers_connected
  peers marshal (some h) w = elim h.comm.node [
    | none ↦ panic
    | some _ ↦ elim (StoreNode.peers hs w) [
      | [] ↦ err Error.no_peers_connected
      | p ∷ ps ↦ marshal (p ∷ ps)
    ]
  ]

  -- `Addrs`, after its five rounds where the node was not started in them.
  unfoldable pub addrs :
      (List Str → Result Str) → Result (List Str) → List Str → HopOf Store Filter F → Result Str
  addrs marshal listening own none = panic
  addrs marshal listening own (some h) = elim h.comm.node [
    | none ↦ err Error.no_peer_address
    | some _ ↦
        let pr = addr_info hs listening own in marshal (own_addresses hs.id_string pr.id pr.addrs)
  ]

  -- `PeerInfo`, given the JSON of the addresses.
  unfoldable pub peer_info :
      (AddrInfo → Result Str) → Result (List Str) → List Str → HopOf Store Filter F → Result Str
  peer_info marshal listening own none = panic
  peer_info marshal listening own (some h) = elim h.comm.node [
    | none ↦ panic
    | some _ ↦ elim (marshal (addr_info hs listening own)) [
      | ok s ↦ ok s
      | err _ ↦ ok (codes "Could not get peerInfo")
      | panic ↦ panic
    ]
  ]

  -- `ConnectWithAddress`, given the peers that the address names, none where it does not parse: the
  -- errors of the two parsers are dropped. Without a peer the node is not asked for.
  unfoldable pub connect_with_address :
      (Str → List AddrInfo) → Str → HopOf Store Filter F → hs.World → Result (Unit {0}) × hs.World
  unfolding connect_all with_node
  connect_with_address infos address h w = elim (infos address) [
    | [] ↦ (ok tt, w)
    | pi ∷ pis ↦ elim (with_node h (λ n. tt)) [
      | ok _ ↦ connect_all hs (pi ∷ pis) w
      | err e ↦ (err e, w)
      | panic ↦ (panic, w)
    ]
  ]

  -- `ConnectWithPeerInfo` and `BootstrapWithPeerInfo`, given what `UnmarshalJSON` returns, and
  -- `BootstrapWithAddress`, given what the parsers return.
  unfoldable pub connect_with_peer_info :
      Result AddrInfo → HopOf Store Filter F → hs.World → Result (Unit {0}) × hs.World
  unfolding with_node
  connect_with_peer_info info h w = elim info [
    | ok pi ↦ elim (with_node h (λ n. tt)) [
      | ok _ ↦ StoreNode.connect hs pi w
      | err e ↦ (err e, w)
      | panic ↦ (panic, w)
    ]
    | err e ↦ (err e, w)
    | panic ↦ (panic, w)
  ]

  unfoldable pub bootstrap_with :
      Result (List AddrInfo) → HopOf Store Filter F → hs.World → Result (Unit {0}) × hs.World
  unfolding with_node
  bootstrap_with infos h w = elim infos [
    | ok pis ↦ elim (with_node h (λ n. tt)) [
      | ok _ ↦ (ok tt, (bootstrap hs pis w).1)
      | err e ↦ (err e, w)
      | panic ↦ (panic, w)
    ]
    | err e ↦ (err e, w)
    | panic ↦ (panic, w)
  ]
