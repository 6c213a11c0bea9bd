-- ===== src/Peer/Start.antt =====
-- The start and the end of a node, internal/ipfs/ipfs.go: the options, New and autoclose.
pub mod Opened
use ipfs_lite.Prelude.{
  ℕ, ◌*◌, Bool, true, false, Option, none, some, List, [], ◌∷◌, codes, Str, Error, Result, ok, err,
  panic,
}
use ipfs_lite.Prelude.Io.{Io, pure, lift, ◌>>=◌, ◌>>◌}

-- A duration is its seconds.
pub record Options : Type 0 where
  pub mdns_interval : ℕ
  pub crdt_rebroadcast_interval : ℕ
  pub crdt_prefix : Str
  pub with_mdns : Bool
  pub auto_download : Bool
  pub crdt_topic : Str

abbrev pub default_options : Options
default_options = record {
  mdns_interval = 5;
  crdt_rebroadcast_interval = 3;
  crdt_prefix = codes "/crdt";
  with_mdns = true;
  auto_download = true;
  crdt_topic = codes "datahop-crdt";
}

-- WithmDNSInterval, WithRebroadcastInterval, WithmDNS, WithAutoDownload, WithCrdtTopic and
-- WithCrdtNamespace.
pub data Choice : Type 0 where
  with_mdns_interval with_rebroadcast_interval : ℕ → Choice
  with_mdns with_auto_download : Bool → Choice
  with_crdt_topic with_crdt_namespace : Str → Choice

unfoldable pub choose : Choice → Options → Options
choose (with_mdns_interval d) o = record o { mdns_interval = d }
choose (with_rebroadcast_interval d) o = record o { crdt_rebroadcast_interval = d }
choose (with_mdns b) o = record o { with_mdns = b }
choose (with_auto_download b) o = record o { auto_download = b }
choose (with_crdt_topic t) o = record o { crdt_topic = t }
choose (with_crdt_namespace n) o = record o { crdt_prefix = n }

-- The loop over the options of `New`.
unfoldable pub chosen : List Choice → Options → Options
unfolding choose
chosen [] o = o
chosen (c ∷ cs) o = chosen cs (choose c o)

-- The errors that the calls of other packages in `New` return, or none: for the configuration, the
-- swarm key where there is one, the libp2p host, the cached block store, and the replication manager
-- with its options. A daemon replaces the first by that of its own repository (Daemon).
pub record Outcomes : Type 0 where
  pub config : Option Error
  pub swarm_key : Option (Option Error)
  pub libp2p : Option Error
  pub blockstore : Option Error
  pub replication : Options → Option Error

-- What is open of a node, with the options that its manager was made with.
pub record Node : Type 0 where
  pub host_open : Bool
  pub bserv_open : Bool
  pub manager : Option Options
  pub watching : Bool
  pub ticking : Bool
  pub online : Bool
  pub scanning : Bool
  pub matrix_closed : Bool
  pub stopped : Bool

abbrev pub no_node : Node
no_node = record {
  host_open = false;
  bserv_open = false;
  manager = none;
  watching = false;
  ticking = false;
  online = false;
  scanning = false;
  matrix_closed = false;
  stopped = false;
}

-- `if err != nil { return nil, err }`
unfoldable pub unless_error : Option Error → Io Node (Unit {0})
unless_error none n = (ok tt, n)
unless_error (some e) n = (err e, n)

-- `pnet.DecodeV1PSK`, where there is a swarm key
unfoldable pub decoded_key : Option (Option Error) → Option Error
decoded_key none = none
decoded_key (some r) = r

-- `SetupLibp2p`
unfoldable pub setup_libp2p : Option Error → Io Node (Unit {0})
setup_libp2p none n = (ok tt, record n { host_open = true })
setup_libp2p (some e) n = (err e, n)

-- `setupBlockService` and `setupDAGService`, which do not fail
unfoldable pub setup_services : Io Node (Unit {0})
setup_services n = (ok tt, record n { bserv_open = true })

-- `setupCrdtStore`; the block service is closed where it fails.
unfoldable pub setup_crdt_store : Options → Option Error → Io Node (Unit {0})
setup_crdt_store o none n = (ok tt, record n { manager = some o })
setup_crdt_store o (some e) n = (err e, record n { bserv_open = false })

-- The end of `New`: StartContentWatcher, StartTicker, online, ZeroConfScan.
unfoldable pub go_online : Io Node (Unit {0})
go_online n = (ok tt, record n { watching = true; ticking = true; online = true; scanning = true })

-- `New`
unfoldable pub new_node : List Choice → Outcomes → Io Node (Unit {0})
unfolding chosen unless_error decoded_key setup_libp2p setup_services setup_crdt_store go_online
new_node cs o =
    let options = chosen cs default_options in
    do
      unless_error o.config
      unless_error (decoded_key o.swarm_key)
      setup_libp2p o.libp2p
      unless_error o.blockstore
      setup_services
      setup_crdt_store options (o.replication options)
      go_online

-- `autoclose`, when the context is done
unfoldable pub autoclose : Node → Node
autoclose n = record n {
  matrix_closed = true;
  online = false;
  manager = none;
  host_open = false;
  bserv_open = false;
  stopped = true;
}
