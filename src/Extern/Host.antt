-- ===== src/Extern/Host.antt =====
-- The libp2p host of a node with its network, go-libp2p, and the parsing of addresses,
-- go-multiaddr.
use ipfs_lite.Prelude.{◌≡◌, ℕ, Bool, true, List, Str, Result, ok}
use ipfs_lite.Prelude.Io.{Io}

-- `peer.AddrInfo`
pub record AddrInfo : Type 0 where
  pub id : Str
  pub addrs : List Str

pub record Host : Type 1 where
  pub World : Type 0
  pub Conn : Type 0
  pub self : Str
  pub id_string : Str → Str
  -- `Connectedness(id) == Connected`, `Connect`, `TagPeer`
  pub is_connected : Str → World → Bool
  pub connect : AddrInfo → Io World (Unit {0})
  pub tag_peer : Str → Str → ℕ → World → World
  -- `Peers`, `ClosePeer`, `ConnsToPeer` and `Close` of a connection
  pub peers : World → List Str
  pub close_peer : Str → Io World (Unit {0})
  pub conns_to_peer : Str → World → List Conn
  pub close_conn : Conn → Io World (Unit {0})
  -- `peer.AddrInfoFromString`; `multiaddr.NewMultiaddr` with `peer.AddrInfoFromP2pAddr`
  pub addr_info_from_string : Str → Result AddrInfo
  pub p2p_addr_info : Str → Result AddrInfo
  -- A connection that was made is there, and tagging a peer is not about connections.
  pub connect-connected :
      (pi : AddrInfo) (w w' : World) → connect pi w ≡ (ok tt, w') → is_connected pi.id w' ≡ true
  pub tag_peer-connected :
      (id tag : Str) (weight : ℕ) (q : Str) (w : World)
      → is_connected q (tag_peer id tag weight w) ≡ is_connected q w
