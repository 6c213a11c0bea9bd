-- ===== src/Cli/Daemon/Interrupted.antt =====
-- The daemon from its start to a signal, and the daemon that is started after it.
use ipfs_lite.Prelude.{
  arith, ◌≡◌, ◌∙◌, ap, sym, Bool, true, false, Option, List, [], ◌∷◌, ◌++◌, codes, Str, Dict, Error,
  Result, ok, some, if◌then◌else◌,
}
use ipfs_lite.Extern.Bloom.{Bloom}
use ipfs_lite.Extern.Cipher.{Cipher}
use ipfs_lite.Extern.Datastore.{Datastore}
use ipfs_lite.Extern.Disk.{Disk}
use ipfs_lite.Extern.FileSystem.{FileSystem}
use ipfs_lite.Extern.Host.{AddrInfo, Host}
use ipfs_lite.Extern.Json.{Json}
use ipfs_lite.Cli.Out.{line}
use ipfs_lite.Cli.Daemon.{
  Wake, interrupted, Exit, returned, Process, stop_process, awake, run_daemon,
}
use ipfs_lite.Daemon.{Common, with_repo_config, swarm_key, with_swarm_key, start, stop, new_common}
use ipfs_lite.Daemon.Restart.{new_common-stop}
use ipfs_lite.Daemon.Started.{started_options, start_steps, steps-with_swarm_key}
use ipfs_lite.Matrix.Content.{ContentMatrix}
use ipfs_lite.Matrix.Keeper.{flush}
use ipfs_lite.Matrix.Node.{NodeMatrix}
use ipfs_lite.Peer.Network.{bootstrap}
use ipfs_lite.Peer.Start.{Outcomes, Node, chosen, no_node, new_node, with_auto_download}
use ipfs_lite.Peer.Start.Opened.{first_error, Runs, new_node_lem}
use ipfs_lite.Repo.Config.{Config}
use ipfs_lite.Repo.FsRepo.{get_config}
use ipfs_lite.Repo.StateKeeper.{State}

module _ (fs : FileSystem) (ds : Datastore) (dk : Disk fs ds) (hs : Host) (Filter F : Type 0)
    ⦃bl : Bloom Filter⦄ ⦃fj : Json Filter⦄ ⦃sj : Json (Dict (State Filter))⦄ ⦃cj : Json Config⦄
    ⦃nj : Json NodeMatrix⦄ ⦃mj : Json (Dict (ContentMatrix F))⦄ where
  abbrev Proc : Type 0
  Proc = Process ds.World Filter F fs.World hs.World

  -- The process of a daemon with a node, once it has said its port.
  abbrev pub up : List AddrInfo → Bool → Config → Node → Proc → Proc
  up peers should_bootstrap cfg n p = record p {
    comm = record p.comm { node = some n };
    net = if should_bootstrap then (bootstrap hs peers p.net).1 else p.net;
    printed = p.printed ++ line (codes "Datahop daemon running on port " ++ cfg.swarm_port);
  }

  module _ (c : Cipher) (decode_psk : Str → Option Error) (peers : List AddrInfo) (o : Outcomes)
      (secret : Str) (dl should_bootstrap : Bool) (wait : Proc → Wake × Proc) (p : Proc) where
    abbrev pub ran : Exit × Proc
    ran = run_daemon fs ds dk hs Filter F c decode_psk peers o secret dl should_bootstrap wait p

    abbrev first : Result (Unit {0})
    first = first_error (
        start_steps decode_psk (swarm_key c secret) (started_options dl)
          (with_repo_config p.comm o))

    -- What the steps of `New` of internal/ipfs return and the node that they make.
    abbrev pub made : Result (Unit {0}) × Node
    made =
        new_node (with_auto_download dl ∷ [])
          (with_swarm_key decode_psk (swarm_key c secret) (with_repo_config p.comm o)) no_node

    started : first ≡ ok tt → (made.0 ≡ ok tt) × Runs (started_options dl) made.1
    unfolding chosen
    started h =
        let (is, well, rests) =
          new_node_lem (with_auto_download dl ∷ [])
            (with_swarm_key decode_psk (swarm_key c secret) (with_repo_config p.comm o)) in
        let all_ok =
          is
          ∙ ap first_error (
              steps-with_swarm_key decode_psk (swarm_key c secret) (started_options dl)
                (with_repo_config p.comm o))
          ∙ h in
        (all_ok, well all_ok)

    waits :
        (cfg : Config) (wake : Wake) (q : Proc)
        → first ≡ ok tt
        → get_config p.comm.repo ≡ ok cfg
        → wait (up peers should_bootstrap cfg made.1 p) ≡ (wake, q)
        → ran ≡ awake fs ds dk hs Filter F wake q
    unfolding run_daemon start
    waits cfg wake q h configured waited = ground (arith, (started h).0, configured, waited)

    -- Where every step of the start succeeds and the repository gives its configuration, the daemon
    -- waits with a node that runs and has the options asked for, after it has contacted the bootstrap
    -- peers where that is asked for and printed its port. A signal that ends the wait makes it
    -- return, once its Stop returns, and its context is done. Where the flush, the closing of the
    -- datastore and the unlocking succeed, the repository's lock is free, and a New on the datastore
    -- as it was closed has the matrices that the daemon had when the signal came.
    pub daemon_interrupted :
        (cfg : Config) (q : Proc) (comm2 : Common ds.World Filter F) (root port : Str)
        (v v' : fs.World)
        → first ≡ ok tt
        → get_config p.comm.repo ≡ ok cfg
        → wait (up peers should_bootstrap cfg made.1 p) ≡ (interrupted, q)
        → (stop fs ds dk Filter F q.comm q.store q.files).0 ≡ ok tt
        → (flush ds q.comm.repo.m_keeper q.store).0 ≡ ok tt
        → (dk.close_datastore ran.1.store q.files).0 ≡ ok tt
        → (dk.unlock (dk.close_datastore ran.1.store q.files).1).0 ≡ ok tt
        → new_common fs ds dk Filter F root port v ≡ (ok comm2, v')
        → comm2.repo.store ≡ ran.1.store
        → Runs (started_options dl) made.1
          × (ran.0 ≡ returned)
          × (ran.1.printed ≡ q.printed ++ line [])
          × (ran.1.comm.cancelled ≡ true)
          × (dk.locked ran.1.files ≡ false)
          × (comm2.repo.m_keeper ≡ q.comm.repo.m_keeper)
    unfolding awake stop_process
    daemon_interrupted cfg q comm2 root port v v' h configured waited stops flushed closed unlocked
          h2 same =
        let ends = waits cfg interrupted q h configured waited in
        let s = (stop fs ds dk Filter F q.comm q.store q.files).1 in
        let it : stop fs ds dk Filter F q.comm q.store q.files ≡ (ok tt, s) =
          ap (λ (r : Result (Unit {0})). (r, s)) stops in
        let is : ran ≡ (
          returned,
          record q { comm = s.0; store = s.1.0; files = s.1.1; printed = q.printed ++ line [] },
        ) =
          ground (arith, ends, stops) in
        let left : ran.1.store ≡ s.1.0 = ap (λ (x : Exit × Proc). x.1.store) is in
        let (done, free, gone, kept, open_, none_) =
          new_common-stop fs ds dk Filter F q.comm comm2 s.0 q.store s.1.0 q.files s.1.1 v v' root
            port it flushed (ap (λ d. (dk.close_datastore d q.files).0) (sym left) ∙ closed)
            (ap (λ d. (dk.unlock (dk.close_datastore d q.files).1).0) (sym left) ∙ unlocked) h2
            (same ∙ left) in
        (
          (started h).1,
          ap (λ (x : Exit × Proc). x.0) is,
          ap (λ (x : Exit × Proc). x.1.printed) is,
          ap (λ (x : Exit × Proc). x.1.comm.cancelled) is ∙ done,
          ap (λ (x : Exit × Proc). dk.locked x.1.files) is ∙ free,
          kept,
        )
