-- ===== src/Tests/Daemons.antt =====
-- The theorems on the start and the stop of the daemon at concrete calls.
use ipfs_lite.Prelude.{
  ◌≡◌, ◌≢◌, refl, ℕ, Bool, true, false, none, some, List, [], ◌∷◌, ◌++◌, codes, Str, Dict, lookup,
  insert, str_eq, Error, Result, ok, err,
}
use ipfs_lite.Extern.Disk.{Disk}
use ipfs_lite.Daemon.{Common, config_error, swarm_key, start, new_common, stop}
use ipfs_lite.Daemon.Started.{started_options, start_keyed}
use ipfs_lite.Cli.Daemon.{Wake, interrupted, Exit, returned, Process, run_daemon}
use ipfs_lite.Cli.Daemon.Interrupted.{up, ran, made, daemon_interrupted}
use ipfs_lite.Tests.Nodes.{host_of, peer_of}
use ipfs_lite.Peer.Start.{new_node}
use ipfs_lite.Matrix.Keeper.{flush, new_matrix_keeper}
use ipfs_lite.Repo.StateFile.{open_state, set_state, init_state, read_state}
use ipfs_lite.Repo.StateKeeper.{load_state_keeper, create_keeper, read_keeper}
use ipfs_lite.Peer.Start.{Node}
use ipfs_lite.Peer.Start.Opened.{first_error, Runs}
use ipfs_lite.Repo.Config.{addresses_config}
use ipfs_lite.Repo.FsRepo.{
  get_config, close_repo, close_parts, open_repo, unlock_unless_ok, open_locked,
  open_state_or_close,
}
use ipfs_lite.Tests.Codec.{json_of, list, pair, number, boolean}
use ipfs_lite.Tests.Codecs.{state, config, node_matrix, content_matrix}
use ipfs_lite.Tests.Disk.{locked_files, map_disk}
use ipfs_lite.Tests.FsRepo.{a_repo, some_config, configured}
use ipfs_lite.Tests.Services.{marking, all_well}
use ipfs_lite.Tests.Worlds.{map_datastore, list_bloom, whole_floats}

abbrev pub a_daemon : Common (Dict Str) (List Str) ℕ
a_daemon = record {
  root = codes "/r";
  port = codes "0";
  repo = a_repo;
  node = none;
  cancelled = false;
}

-- The matrix of the daemon, flushed to an empty datastore.
abbrev pub stored : Dict Str
stored = (flush map_datastore a_repo.m_keeper []).1

-- A disk whose datastore closes, and opens with what was stored.
abbrev pub kept_disk : Disk locked_files map_datastore
kept_disk = record map_disk {
  open_datastore = λ p w. (ok stored, w);
  close_datastore = λ d w. (ok tt, w);
  locked-open = λ p w. refl;
  locked-close = λ d w. refl;
}

abbrev stopped :
    Result (Unit {0}) × (Common (Dict Str) (List Str) ℕ × (Dict Str × (Bool × Dict Str)))
stopped = stop locked_files map_datastore kept_disk (List Str) ℕ a_daemon [] (true, configured)

abbrev again : Result (Common (Dict Str) (List Str) ℕ) × (Bool × Dict Str)
again =
    new_common locked_files map_datastore kept_disk (List Str) ℕ (codes "/r") (codes "0")
      (false, configured)

abbrev start_ran : Result (Unit {0}) × Common (Dict Str) (List Str) ℕ
start_ran = start marking (λ sk. none) (codes "secret") false all_well a_daemon

start_keyed_example :
    (codes "secret" ≡ [] → start_ran.0 ≡ first_error (none ∷ none ∷ none ∷ none ∷ none ∷ []))
    × (codes "secret" ≢ [] → start_ran.0 ≡ first_error (none ∷ none ∷ none ∷ none ∷ none ∷ []))
    × (start_ran.0 ≡ ok tt
        → (n : Node) × (start_ran.1 ≡ record a_daemon { node = some n })
          × Runs (started_options false) n)
    × ((e : Error) → start_ran.0 ≡ err e → start_ran.1 ≡ a_daemon)
start_keyed_example =
    start_keyed {Store = Dict Str} {Filter = List Str} {F = ℕ} marking (λ sk. none) (codes "secret")
      false all_well a_daemon

abbrev pub reopened : Common (Dict Str) (List Str) ℕ
reopened = record a_daemon {
  repo = record a_repo {
    store = stored;
    state = [];
    state_keeper = record { states = []; root = codes "/r" };
  };
}

-- The daemon in a process of its own, and a signal right after it said its port.
abbrev Proc : Type 0
Proc = Process (Dict Str) (List Str) ℕ (Bool × Dict Str) (List Str)

abbrev fresh : Proc
fresh = record { comm = a_daemon; store = []; files = (true, configured); net = []; printed = [] }

abbrev signalled : Proc → Wake × Proc
signalled q = (interrupted, q)

abbrev daemon_ran : Exit × Proc
daemon_ran =
    ran locked_files map_datastore kept_disk (host_of (codes "me")) (List Str) ℕ marking
      (λ sk. none) (peer_of (codes "you") ∷ []) all_well [] false true signalled fresh

abbrev daemon_made : Node
daemon_made =
    (made locked_files map_datastore kept_disk (host_of (codes "me")) (List Str) ℕ marking
      (λ sk. none) (peer_of (codes "you") ∷ []) all_well [] false true signalled fresh).1

abbrev before_signal : Proc
before_signal =
    up locked_files map_datastore kept_disk (host_of (codes "me")) (List Str) ℕ
      (peer_of (codes "you") ∷ []) true some_config daemon_made fresh

daemon_interrupted_example :
    Runs (started_options false) daemon_made
    × (daemon_ran.0 ≡ returned)
    × (daemon_ran.1.printed ≡ codes "Datahop daemon running on port 4501" ++ (10 ∷ 10 ∷ []))
    × (daemon_ran.1.comm.cancelled ≡ true)
    × (kept_disk.locked daemon_ran.1.files ≡ false)
    × (reopened.repo.m_keeper ≡ a_daemon.repo.m_keeper)
unfolding new_node stop run_daemon flush close_repo close_parts new_common open_repo
    unlock_unless_ok open_locked lookup str_eq open_state_or_close open_state set_state insert
    load_state_keeper create_keeper addresses_config new_matrix_keeper init_state read_state
    read_keeper first_error swarm_key get_config start config_error
daemon_interrupted_example =
    daemon_interrupted locked_files map_datastore kept_disk (host_of (codes "me")) (List Str) ℕ
      marking (λ sk. none) (peer_of (codes "you") ∷ []) all_well [] false true signalled fresh
      some_config before_signal reopened (codes "/r") (codes "0") (false, configured) again.1 refl
      refl refl refl refl refl refl refl refl
