-- ===== src/Peer/Network.antt =====
-- The node in the network, internal/ipfs/ipfs.go: Connect, Disconnect, Peers, HandlePeerFound,
-- FindProviders, ConnectIfNotConnectedUsingRelay, and the zeroconf entries of ZeroConfScan.
pub mod Found
pub mod Zeroconf
use ipfs_lite.Prelude.{
  suc, ℕ, Bool, true, false, Option, none, some, List, [], ◌∷◌, ◌++◌, map, codes, Str, str_eq,
  Error, Result, ok, err, panic, ◌==◌, if◌then◌else◌,
}
use ipfs_lite.Prelude.Io.{Io, pure, fail, ◌>>=◌, ◌>>◌}
use ipfs_lite.Extern.Host.{AddrInfo, Host}

abbrev pub relay_addr : Str
relay_addr = codes "/ip4/3.7.249.218/tcp/4501/p2p/QmdoyRYnEbtFuVwSVXbGKSudkbEJ8X17hGnyc1EtWDHdFJ"

abbrev pub connection_manager_tag : Str
connection_manager_tag = codes "user-connect"

abbrev pub connection_manager_weight : ℕ
connection_manager_weight = 100

-- What the loop of `FindProviders` may receive next.
pub data Arrival : Type 0 where
  provider : AddrInfo → Arrival
  timeout cancelled : Arrival

-- What the program reads of a zeroconf entry.
pub record ServiceEntry : Type 0 where
  pub instance_name : Str
  pub addr_ipv4 : List Str

-- `strings.Split` at a colon
unfoldable pub split_colon : Str → List Str
split_colon [] = [] ∷ []
split_colon (c ∷ s) =
    let rest = split_colon s in
    if c == b':' then [] ∷ rest else elim rest [ [] ↦ (c ∷ []) ∷ [] | p ∷ ps ↦ (c ∷ p) ∷ ps ]

unfoldable pub zero_conf_address : Str → Str → Str → Str
zero_conf_address ip port id =
    codes "/ip4/" ++ (ip ++ (codes "/tcp/" ++ (port ++ (codes "/p2p/" ++ id))))

module _ (hs : Host) where
  open hs use {World}

  -- `Connect`; a node without a host is offline.
  unfoldable pub connect : Bool → AddrInfo → Io World (Unit {0})
  connect has_host pi w =
      if has_host
      then (if hs.is_connected pi.id w
          then (ok tt, w)
          else (hs.connect pi >> λ w'.
                (ok tt, hs.tag_peer pi.id connection_manager_tag connection_manager_weight w'))
              w)
      else (err Error.peer_offline, w)

  -- `Peers`
  unfoldable pub peers : World → List Str
  peers w = map hs.id_string (hs.peers w)

  -- The first connection of the list, in the loop of `Disconnect` that returns at once.
  unfoldable pub close_first : List hs.Conn → Io World (Unit {0})
  close_first [] = pure tt
  close_first (c ∷ cs) = hs.close_conn c

  unfoldable pub disconnect : Bool → AddrInfo → Io World (Unit {0})
  unfolding close_first
  disconnect has_host pi w =
      if has_host
      then (if str_eq (hs.id_string pi.id) []
          then (err Error.invalid_addr, w)
          else if hs.is_connected pi.id w
          then (hs.close_peer pi.id >> λ w'. close_first (hs.conns_to_peer pi.id w') w') w
          else (err Error.not_connected, w))
      else (err Error.peer_offline, w)

  -- `HandlePeerFoundWithError`; `HandlePeerFound` only logs the error.
  unfoldable pub handle_peer_found_with_error : AddrInfo → Io World (Unit {0})
  unfolding connect
  handle_peer_found_with_error pi = connect true pi

  unfoldable pub handle_peer_found : AddrInfo → Io World (Unit {0})
  unfolding connect
  handle_peer_found pi w = (ok tt, (connect true pi w).1)

  -- The loop of `FindProviders`, on what it receives until a timeout at the end of the list, with the
  -- providers that it has.
  unfoldable pub find_providers : List Arrival → List Str → World → List Str × World
  find_providers [] found w = (found, w)
  find_providers (timeout ∷ as') found w = (found, w)
  find_providers (cancelled ∷ as') found w = (found, w)
  find_providers (provider pi ∷ as') found w =
      let (r, w') = hs.connect pi w in
      let past_self = find_providers as' found w in
      let past_found = find_providers as' (found ++ (pi.id ∷ [])) w in
      let past_made = find_providers as' (found ++ (pi.id ∷ [])) w' in
      let past_failed = find_providers as' found w' in
      if str_eq pi.id hs.self
      then past_self
      else if str_eq (hs.id_string pi.id) []
      then (found, w)
      else if hs.is_connected pi.id w
      then past_found
      else elim r [ ok u ↦ past_made | err e ↦ past_failed | panic ↦ past_failed ]

  -- The address of a peer behind the relay.
  unfoldable pub relayed : Str → Str
  relayed id = relay_addr ++ (codes "/p2p-circuit/p2p/" ++ hs.id_string id)

  -- `ConnectIfNotConnectedUsingRelay`
  unfoldable pub connect_using_relay : List Str → World → World
  unfolding relayed
  connect_using_relay [] w = w
  connect_using_relay (id ∷ ids) w =
      let next : World = elim (hs.addr_info_from_string (relayed id)) [
        | ok pi ↦ (hs.connect pi w).1
        | err e ↦ w
        | panic ↦ w
      ] in
      connect_using_relay ids (if hs.is_connected id w then w else next)

  -- `action` of `ZeroConfScan`, on the pieces of the instance's name
  unfoldable pub zero_conf_pieces : List Str → List Str → World → World
  unfolding connect zero_conf_address
  zero_conf_pieces [] ips w = w
  zero_conf_pieces (id ∷ []) ips w = w
  zero_conf_pieces (id ∷ port ∷ rest) [] w = w
  zero_conf_pieces (id ∷ port ∷ rest) (ip ∷ ips) w =
      if str_eq id (hs.id_string hs.self)
      then w
      else elim (hs.p2p_addr_info (zero_conf_address ip port id)) [
        | ok pi ↦ if hs.is_connected pi.id w then w else (connect true pi w).1
        | err e ↦ w
        | panic ↦ w
      ]

  unfoldable pub zero_conf_action : ServiceEntry → World → World
  unfolding split_colon zero_conf_pieces
  zero_conf_action entry w = zero_conf_pieces (split_colon entry.instance_name) entry.addr_ipv4 w

  -- The name that `ZeroConfScan` registers.
  unfoldable pub zero_conf_instance : Str → Str
  zero_conf_instance port = hs.id_string hs.self ++ (b':' ∷ port)

  -- The connections of `Bootstrap`, in one order of its goroutines, and how many were made; their
  -- errors are logged.
  unfoldable pub bootstrap : List AddrInfo → World → ℕ × World
  bootstrap [] w = (0, w)
  bootstrap (pi ∷ pis) w =
      let (r, w1) = hs.connect pi w in
      let (n, w2) = bootstrap pis w1 in
      elim r [ ok _ ↦ (suc n, w2) | err _ ↦ (n, w2) | panic ↦ (n, w2) ]
