-- ===== src/Cli/Daemon.antt =====
-- The commands daemon and stop, cli/cmd/daemon.go and cli/cmd/stop.go. The banner is left out.
pub mod Interrupted
use ipfs_lite.Prelude.{
  ℕ, Bool, true, false, Option, none, some, List, [], ◌∷◌, ◌++◌, codes, Str, Dict, Error, Result,
  ok, err, panic, if◌then◌else◌,
}
use ipfs_lite.Extern.Bloom.{Bloom}
use ipfs_lite.Extern.Cipher.{Cipher}
use ipfs_lite.Extern.Datastore.{Datastore}
use ipfs_lite.Extern.Disk.{Disk}
use ipfs_lite.Extern.FileSystem.{FileSystem}
use ipfs_lite.Extern.Host.{AddrInfo, Host}
use ipfs_lite.Extern.Json.{Json}
use ipfs_lite.Cli.Out.{line}
use ipfs_lite.Daemon.{Common, start, stop}
use ipfs_lite.Matrix.Content.{ContentMatrix}
use ipfs_lite.Matrix.Node.{NodeMatrix}
use ipfs_lite.Peer.Network.{bootstrap}
use ipfs_lite.Peer.Start.{Outcomes}
use ipfs_lite.Repo.Config.{Config}
use ipfs_lite.Repo.FsRepo.{get_config}
use ipfs_lite.Repo.StateKeeper.{State}

-- Why the daemon's wait ends: a signal, or the context of the node is done.
pub data Wake : Type 0 where
  interrupted over : Wake

-- How a command ends: it returns, calls `os.Exit`, or panics.
pub data Exit : Type 0 where
  returned crashed : Exit
  exited : ℕ → Exit

-- The process: its node, the datastore, the files, the network, and what it printed.
pub record Process (Store Filter F Files Net : Type 0) : Type 0 where
  pub comm : Common Store Filter F
  pub store : Store
  pub files : Files
  pub net : Net
  pub printed : Str

module _ (fs : FileSystem) (ds : Datastore) (dk : Disk fs ds) (hs : Host) (Filter F : Type 0)
    ⦃bl : Bloom Filter⦄ ⦃fj : Json Filter⦄ ⦃sj : Json (Dict (State Filter))⦄ ⦃cj : Json Config⦄
    ⦃nj : Json NodeMatrix⦄ ⦃mj : Json (Dict (ContentMatrix F))⦄ where
  abbrev pub Proc : Type 0
  Proc = Process ds.World Filter F fs.World hs.World

  -- A call of comm.Stop.
  unfoldable pub stop_process : Proc → Exit × Proc
  stop_process p =
      let (r, (comm, (d, w))) = stop fs ds dk Filter F p.comm p.store p.files in
      let p' : Proc = record p { comm = comm; store = d; files = w } in
      elim r [ ok _ ↦ (returned, p') | err _ ↦ (returned, p') | panic ↦ (crashed, p') ]

  -- What the daemon does when its wait ends.
  unfoldable pub awake : Wake → Proc → Exit × Proc
  unfolding stop_process
  awake interrupted p = stop_process (record p { printed = p.printed ++ line [] })
  awake over p = (returned, p)

  -- `Run` of the daemon, with the flags secret, dl and bootstrap and the default bootstrap peers;
  -- `wait` is what the process does until its wait ends.
  unfoldable pub run_daemon :
      Cipher
      → (Str → Option Error)
      → List AddrInfo
      → Outcomes
      → Str
      → Bool
      → Bool
      → (Proc → Wake × Proc)
      → Proc
      → Exit × Proc
  unfolding awake
  run_daemon c decode_psk peers o secret dl should_bootstrap wait p =
      let (r, comm) = start c decode_psk secret dl o p.comm in
      elim r [
        | err e ↦ (exited 1, record p { comm = comm })
        | panic ↦ (crashed, record p { comm = comm })
        | ok _ ↦
            let p1 : Proc = record p {
              comm = comm;
              net = if should_bootstrap then (bootstrap hs peers p.net).1 else p.net;
            } in
            elim (get_config comm.repo) [
              | err e ↦ (exited 1, p1)
              | panic ↦ (crashed, p1)
              | ok cfg ↦
                  let (wake, p2) = wait (record p1 {
                    printed =
                        p.printed
                        ++ line (codes "Datahop daemon running on port " ++ cfg.swarm_port);
                  }) in
                  awake wake p2
            ]
      ]

  -- `Run` of the command stop
  unfoldable pub run_stop : Proc → Exit × Proc
  unfolding stop_process
  run_stop p = stop_process (record p { printed = p.printed ++ codes "Daemon Stopped" })
