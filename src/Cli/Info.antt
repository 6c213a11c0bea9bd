-- ===== src/Cli/Info.antt =====
-- The commands that print what the node knows: info, index, matrix and bs of cli/cmd.
pub mod Hidden
use ipfs_lite.Prelude.{
  Bool, true, false, not, Option, none, some, List, [], ◌∷◌, ◌++◌, codes, Str, has_prefix, Dict,
  Int64, Error, Result, ok, err, panic, check, if◌then◌else◌, ◌>>=◌, ◌>>◌,
}
use ipfs_lite.Extern.Crdt.{Crdt}
use ipfs_lite.Extern.Host.{AddrInfo, Host}
use ipfs_lite.Extern.Json.{Json}
use ipfs_lite.Cli.Add.Input.{NodeState, daemon_runs}
use ipfs_lite.Cli.Out.{Format, print}
use ipfs_lite.Matrix.Snapshot.{Matrices, snapshots}
use ipfs_lite.Matrix.Keeper.{MatrixKeeper}
use ipfs_lite.Replication.Manager.{index}
use ipfs_lite.Replication.Types.{ContentMetatag}
use ipfs_lite.Repo.Config.{Config, Identity}
use ipfs_lite.Store.Node.{peers, addr_info, own_addresses}

-- `info`
pub record NodeInfo (Filter : Type 0) : Type 0 where
  pub is_daemon_running : Bool
  pub config : Config
  pub peers : List Str
  pub crdt_status : Filter
  pub disk_usage : Int64
  pub addresses : List Str

-- The copy of the configuration that is printed.
abbrev pub without_key : Config → Config
without_key cfg = record cfg { identity = record cfg.identity { priv_key = [] } }

module _ (hs : Host) {Filter : Type 0} where
  -- What `RunE` of info prints, given the addresses that the host has, the usage of the datastore,
  -- what `Config` of the repository returns, and the node's filter.
  unfoldable pub node_info :
      NodeState
      → Result (List Str)
      → List Str
      → Result Int64
      → Result Config
      → Filter
      → hs.World
      → Result (NodeInfo Filter)
  unfolding own_addresses
  node_info none listening addrs usage config filter w = config >>= λ cfg. ok (record {
    is_daemon_running = false;
    config = without_key cfg;
    peers = [];
    crdt_status = filter;
    disk_usage = 0;
    addresses = [];
  })
  node_info (some online) listening addrs usage config filter w =
      let pr = addr_info hs listening addrs in
      usage >>= λ du. config >>= λ cfg. ok (record {
        is_daemon_running = online;
        config = without_key cfg;
        peers = peers hs w;
        crdt_status = filter;
        disk_usage = du;
        addresses = own_addresses hs.id_string pr.id pr.addrs;
      })

  -- `RunE` of info
  unfoldable pub run_info :
      ⦃j : Json (NodeInfo Filter)⦄
      → (Str → Result Str)
      → (NodeInfo Filter → Str)
      → Format
      → NodeState
      → Result (List Str)
      → List Str
      → Result Int64
      → Result Config
      → Filter
      → hs.World
      → Result Str
  unfolding node_info
  run_info indent plain format comm listening addrs usage config filter w =
      node_info comm listening addrs usage config filter w >>= λ inf. print indent plain inf format

-- `RunE` of index
unfoldable pub run_index :
    (db : Crdt)
    → ⦃mj : Json ContentMetatag⦄ → ⦃ij : Json (Dict ContentMetatag)⦄ → (Str → Result Str)
    → (Dict ContentMetatag → Str)
    → Format
    → NodeState
    → db.World
    → Result Str
unfolding daemon_runs
run_index db indent plain format comm w = do
  check (daemon_runs comm) Error.daemon_not_running
  tags ← index db w
  print indent plain tags format

-- `RunE` of matrix: nothing is printed before the node was started.
unfoldable pub run_matrix :
    {F : Type 0}
    → ⦃j : Json (Matrices F)⦄ → (Str → Result Str)
    → (Matrices F → Str)
    → Format
    → NodeState
    → MatrixKeeper F
    → Result Str
unfolding snapshots
run_matrix indent plain format none k = ok []
run_matrix indent plain format (some online) k = print indent plain (snapshots k) format

-- `RunE` of bs, given the statistics of the exchange.
unfoldable pub run_bitswap_stat :
    {Stat : Type 0}
    → ⦃j : Json Stat⦄ → Json Str
    → (Str → Result Str)
    → (Stat → Str)
    → Format
    → NodeState
    → Result Stat
    → Result Str
run_bitswap_stat sj indent plain format none stat =
    print ⦃j = sj⦄ indent (λ s. s) (codes "Node not running") format
run_bitswap_stat sj indent plain format (some online) stat =
    stat >>= λ s. print indent plain s format
