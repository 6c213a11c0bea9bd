-- ===== src/Store/Node.antt =====
-- The methods of IPFSNode on the network, pkg/store/ipfs/ipfs.go, over the libp2p host.
use ipfs_lite.Prelude.{
  Bool, true, not, List, [], ◌∷◌, ◌++◌, codes, Str, has_prefix, Result, ok, err, panic,
  if◌then◌else◌,
}
use ipfs_lite.Prelude.Io.{Io}
use ipfs_lite.Extern.Host.{AddrInfo, Host}
use ipfs_lite.Peer.Network as Network

module _ (hs : Host) where
  -- `IsPeerConnected`: the text of an ID stands for the ID itself, it is not decoded.
  unfoldable pub is_peer_connected : Str → hs.World → Bool
  is_peer_connected id w = hs.is_connected id w

  -- `Connect`; the node has a host.
  unfoldable pub connect : AddrInfo → Io hs.World (Unit {0})
  unfolding is_peer_connected
  connect info w =
      if is_peer_connected (hs.id_string info.id) w
      then (ok tt, w)
      else Network.connect hs true info w

  -- `Peers`
  unfoldable pub peers : hs.World → List Str
  peers w = Network.peers hs w

  -- `AddrInfo`, given what `InterfaceListenAddresses` and `Addrs` of the host return.
  unfoldable pub addr_info : Result (List Str) → List Str → AddrInfo
  addr_info (ok listening) addrs = record { id = hs.self; addrs = listening }
  addr_info (err _) addrs = record { id = hs.self; addrs = addrs }
  addr_info panic addrs = record { id = hs.self; addrs = addrs }

-- The addresses of the node under which others may reach it, each with the node's ID.
unfoldable pub own_addresses : (Str → Str) → Str → List Str → List Str
own_addresses id_string id [] = []
own_addresses id_string id (v ∷ addrs) =
    let rest = own_addresses id_string id addrs in
    if not (has_prefix v (codes "/ip4/127"))
    then (v ++ (codes "/p2p/" ++ id_string id)) ∷ rest
    else rest
