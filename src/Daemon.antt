-- ===== src/Daemon.antt =====
-- The node as a program holds it, pkg: Init, New, Start and Stop of Common, over the repository and the
-- node.
pub mod Started
pub mod Restart
use ipfs_lite.Prelude.{
  Bool, true, false, Option, none, some, List, [], ◌∷◌, ◌++◌, codes, Str, Dict, Error, Result, ok,
  err, panic,
}
use ipfs_lite.Prelude.Io.{Io, pure, ◌>>=◌}
use ipfs_lite.Extern.Bloom.{Bloom}
use ipfs_lite.Extern.Cipher.{Cipher}
use ipfs_lite.Extern.Datastore.{Datastore}
use ipfs_lite.Extern.Disk.{Disk}
use ipfs_lite.Extern.FileSystem.{FileSystem}
use ipfs_lite.Extern.Json.{Json}
use ipfs_lite.Matrix.Content.{ContentMatrix}
use ipfs_lite.Matrix.Keeper.{flush}
use ipfs_lite.Matrix.Node.{NodeMatrix}
use ipfs_lite.Peer.Start.{Outcomes, Node, no_node, with_auto_download, new_node}
use ipfs_lite.Repo.Config.{Config}
use ipfs_lite.Repo.FsRepo.{FsRepo, get_config, close_repo, init_repo, open_repo}
use ipfs_lite.Repo.StateKeeper.{State}

-- `skBase` and what `Start` puts after it
abbrev pub sk_base : Str
sk_base = codes "/key/swarm/psk/1.0.0/" ++ (10 ∷ codes "/base16/")

-- The key of a private network, in the text form of a swarm key; a blank key is none.
unfoldable pub swarm_key : Cipher → Str → Option Str
swarm_key c [] = none
swarm_key c (b ∷ key) =
    let hex_key = c.md5_hex (b ∷ key) in some (sk_base ++ (10 ∷ (hex_key ++ hex_key)))

-- The errors of the steps of `New` of internal/ipfs: what `pnet.DecodeV1PSK` says of the swarm key is
-- one of them.
unfoldable pub with_swarm_key : (Str → Option Error) → Option Str → Outcomes → Outcomes
with_swarm_key decode_psk none o = record o { swarm_key = none }
with_swarm_key decode_psk (some sk) o = record o { swarm_key = some (decode_psk sk) }

-- The error of the `Config` of the repository, which does not panic.
unfoldable pub config_error : Result Config → Option Error
config_error (ok cfg) = none
config_error (err e) = some e
config_error panic = none

-- `Common`; whether its context is done.
pub record Common (Store Filter F : Type 0) : Type 0 where
  pub root : Str
  pub port : Str
  pub repo : FsRepo Store Filter F
  pub node : Option Node
  pub cancelled : Bool

-- The steps of `New` of internal/ipfs begin with the configuration of the daemon's own repository.
abbrev pub with_repo_config :
    {Store Filter F : Type 0} → Common Store Filter F → Outcomes → Outcomes
with_repo_config comm o = record o { config = config_error (get_config comm.repo) }

-- `Start`: comm.Node is set on success only.
unfoldable pub start :
    {Store Filter F : Type 0}
    → Cipher
    → (Str → Option Error)
    → Str
    → Bool
    → Outcomes
    → Io (Common Store Filter F) (Unit {0})
unfolding swarm_key with_swarm_key
start c decode_psk key auto_download o comm =
    let o' = with_swarm_key decode_psk (swarm_key c key) (with_repo_config comm o) in
    let (r, n) = new_node (with_auto_download auto_download ∷ []) o' no_node in
    elim r [
      | ok _ ↦ (ok tt, record comm { node = some n })
      | err e ↦ (err e, comm)
      | panic ↦ (panic, comm)
    ]

module _ (fs : FileSystem) (ds : Datastore) (dk : Disk fs ds) (Filter F : Type 0)
    ⦃bl : Bloom Filter⦄ ⦃fj : Json Filter⦄ ⦃sj : Json (Dict (State Filter))⦄ ⦃cj : Json Config⦄
    ⦃nj : Json NodeMatrix⦄ ⦃mj : Json (Dict (ContentMatrix F))⦄ where
  -- `Init`, which logs the error of the repository's Init and returns it.
  unfoldable pub init_root : Str → Result Config → Io fs.World (Unit {0})
  init_root root new = init_repo fs ds dk Filter F root new

  -- `New`
  unfoldable pub new_common : Str → Str → Io fs.World (Common ds.World Filter F)
  new_common root port = do
    r ← open_repo fs ds dk Filter F root
    pure (record { root = root; port = port; repo = r; node = none; cancelled = false })

  -- `Stop`, on the datastore as it is now: the errors of the flush and of the repository's Close are
  -- dropped.
  unfoldable pub stop :
      Common ds.World Filter F
      → ds.World
      → fs.World
      → Result (Unit {0}) × (Common ds.World Filter F × (ds.World × fs.World))
  stop comm d w =
      let (flushed, d') = flush ds comm.repo.m_keeper d in
      let (r, closed, w') = close_repo fs ds dk (record comm.repo { store = d' }) w in
      let stopped : Common ds.World Filter F = record comm { repo = r; cancelled = true } in
      elim flushed [
        | panic ↦ (panic, (comm, (d', w)))
        | _ ↦ elim closed [
          | panic ↦ (panic, (record comm { repo = r }, (d', w')))
          | _ ↦ (ok tt, (stopped, (d', w')))
        ]
      ]

-- `CheckErrors`: all the functions are called, the last first, and their errors are logged.
unfoldable pub check_errors : {W : Type 0} → List (W → Option Error × W) → W → W
check_errors [] w = w
check_errors (f ∷ fs) w = (f (check_errors fs w)).1
