-- ===== src/Tests/Nodes.antt =====
-- The theorems on the store over the node, on the mobile library and on the network at concrete calls.
use ipfs_lite.Prelude.{
  ◌≡◌, ◌≢◌, refl, arith, Bool, true, false, List, [], ◌∷◌, Str, str_eq, str_eq_refl, str_eq_iff,
  Result, ok, if◌then◌else◌, codes,
}
use ipfs_lite.Extern.Host.{AddrInfo, Host}
use ipfs_lite.Peer.Network.{connect, zero_conf_action, zero_conf_instance, zero_conf_address}
use ipfs_lite.Peer.Network.Zeroconf.{NoColon, zero_conf_meets}

-- A host named by a string, whose world is the peers it is connected to, and which connects to all but
-- those with a blank identifier.
abbrev member : Str → List Str → Bool
member q [] = false
member q (p ∷ w) = let rest = member q w in if str_eq p q then true else rest

abbrev connect_to : AddrInfo → List Str → Result (Unit {0}) × List Str
connect_to pi w = (ok tt, pi.id ∷ w)

pub connect-member :
    (pi : AddrInfo) (w w' : List Str) → connect_to pi w ≡ (ok tt, w') → member pi.id w' ≡ true
connect-member pi w w' h =
    let same : pi.id ∷ w ≡ w' = ground arith in
    let there : member pi.id (pi.id ∷ w) ≡ true = ground (arith, str_eq_refl pi.id) in
    ground (arith, same, there)

abbrev pub peer_of : Str → AddrInfo
peer_of id = record { id = id; addrs = [] }

abbrev pub host_of : Str → Host
host_of me = record {
  World = List Str;
  Conn = Str;
  self = me;
  id_string = λ i. i;
  is_connected = member;
  connect = connect_to;
  tag_peer = λ id tag weight w. w;
  peers = λ w. w;
  close_peer = λ id w. (ok tt, []);
  conns_to_peer = λ id w. [];
  close_conn = λ c w. (ok tt, w);
  addr_info_from_string = λ s. ok (peer_of s);
  p2p_addr_info = λ s. ok (peer_of s);
  connect-connected = connect-member;
  tag_peer-connected = λ id tag weight q w. refl;
}

plain_me : NoColon (codes "me")
unfolding NoColon
plain_me = (λ e. absurd (omega arith), (λ e. absurd (omega arith), tt))

plain_you : NoColon (codes "you")
unfolding NoColon
plain_you =
    (λ e. absurd (omega arith), (λ e. absurd (omega arith), (λ e. absurd (omega arith), tt)))

plain_port : NoColon (codes "45")
unfolding NoColon
plain_port = (λ e. absurd (omega arith), (λ e. absurd (omega arith), tt))

you-me : codes "you" ≢ codes "me"
unfolding str_eq
you-me e = cc ((str_eq_iff (codes "you") (codes "me")).1 e)

abbrev address : Str
address = zero_conf_address (codes "1.2.3.4") (codes "45") (codes "you")

zero_conf_meets_example :
    (zero_conf_action
        (host_of (codes "me"))
        record {
          instance_name = zero_conf_instance (host_of (codes "me")) (codes "45");
          addr_ipv4 = codes "1.2.3.4" ∷ [];
        }
        []
      ≡ [])
    × (member address (
          zero_conf_action
            (host_of (codes "me"))
            record {
              instance_name = zero_conf_instance (host_of (codes "you")) (codes "45");
              addr_ipv4 = codes "1.2.3.4" ∷ [];
            }
            [])
        ≡ true)
unfolding connect
zero_conf_meets_example =
    zero_conf_meets (host_of (codes "me")) (host_of (codes "you")) (codes "45") (codes "1.2.3.4") []
      (peer_of address) [] (address ∷ []) plain_me plain_you plain_port you-me refl refl
