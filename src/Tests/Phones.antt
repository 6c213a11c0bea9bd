-- ===== src/Tests/Phones.antt =====
-- The theorems on the life of the mobile library's node at concrete calls.
use ipfs_lite.Prelude.{
  Bool, ◌≡◌, ◌≢◌, refl, arith, ℕ, true, false, none, some, List, [], ◌∷◌, codes, Str, Dict, lookup,
  insert, str_eq, In, Error, Result, ok, err, panic, Option,
}
use ipfs_lite.Extern.Host.{AddrInfo}
use ipfs_lite.Daemon.{with_repo_config, config_error, start, init_root, new_common}
use ipfs_lite.Repo.Config.{addresses_config}
use ipfs_lite.Repo.StateFile.{open_state, set_state, init_state, read_state}
use ipfs_lite.Repo.StateKeeper.{load_state_keeper, create_keeper, read_keeper}
use ipfs_lite.Matrix.Keeper.{flush, new_matrix_keeper}
use ipfs_lite.Daemon.Started.{started_options, start_steps}
use ipfs_lite.Matrix.Keeper.{empty_matrix}
use ipfs_lite.Mobile.Discovery.{new_discovery_service}
use ipfs_lite.Mobile.Life.{
  HopOf, init_library, Library, initialised, start_node, is_node_online, id, stop_node, service_tag,
}
use ipfs_lite.Mobile.Life.Begun.{start_node_lem}
use ipfs_lite.Peer.Network.{bootstrap}
use ipfs_lite.Peer.Start.{Node, new_node, no_node}
use ipfs_lite.Replication.Manager.{find_tag}
use ipfs_lite.Replication.Types.{ContentMetatag}
use ipfs_lite.Mobile.Life.Meeting.{matrix_of, after_connection, after_disconnection, peer_session}
use ipfs_lite.Matrix.Content.{ContentMatrix, new_entry}
use ipfs_lite.Matrix.Node.{node_of}
use ipfs_lite.Tests.FsRepo.{configured, some_config, a_repo}
use ipfs_lite.Tests.Songs.{song_key, with_song}
use ipfs_lite.Tests.Worlds.{map_datastore, list_bloom, whole_floats, map_store, plain_keys}
use ipfs_lite.Tests.Codec.{json_of, list, pair, number, boolean}
use ipfs_lite.Tests.Codecs.{
  state, config, node_matrix, content_matrix, group_metadata, content_metatag, link,
}
use ipfs_lite.Mobile.Life.{peer_connected, peer_disconnected, on_connected, on_disconnected}
use ipfs_lite.Peer.Start.Opened.{first_error, Runs}
use ipfs_lite.Repo.FsRepo.{
  get_config, init_repo, init_config, open_repo, unlock_unless_ok, open_locked, open_state_or_close,
}
use ipfs_lite.Tests.Daemons.{a_daemon, kept_disk, reopened}
use ipfs_lite.Tests.Disk.{locked_files}
use ipfs_lite.Mobile.Life.Online.{online_after_start}
use ipfs_lite.Tests.Nodes.{host_of, peer_of}
use ipfs_lite.Tests.Services.{marking, all_well}

abbrev begun : Library (Dict Str) (List Str) ℕ
begun = record {
  comm = a_daemon;
  discovery = record (new_discovery_service (codes "p") 1000 20000 service_tag empty_matrix) {
    notifees = 0 ∷ [];
  };
  notified = false;
  hook = none;
}

abbrev text_of : List Str → Result Str
text_of l = ok []

abbrev info_text : AddrInfo → Result Str
info_text i = ok i.id

start_node_example :
    (start_node {Store = Dict Str} {Filter = List Str} {F = ℕ}
        (host_of (codes "me"))
        marking
        (λ sk. none)
        (peer_of (codes "you") ∷ [])
        true
        false
        all_well
        none
        []
      ≡ (err Error.node_not_running, (none, [])))
    × ((e : Error)
        → first_error (
            start_steps
              (λ sk. none)
              none
              (started_options false)
              (with_repo_config a_daemon all_well))
          ≡ err e
        → start_node
            (host_of (codes "me"))
            marking
            (λ sk. none)
            (peer_of (codes "you") ∷ [])
            true
            false
            all_well
            (some begun)
            []
          ≡ (err e, (some begun, [])))
    × (first_error (
            start_steps
              (λ sk. none)
              none
              (started_options false)
              (with_repo_config a_daemon all_well))
          ≡ ok tt
        → (n : Node) × (start_node
              (host_of (codes "me"))
              marking
              (λ sk. none)
              (peer_of (codes "you") ∷ [])
              true
              false
              all_well
              (some begun)
              []
            ≡ (
              ok tt,
              (
                some (record begun { comm = record a_daemon { node = some n }; notified = true }),
                (bootstrap (host_of (codes "me")) (peer_of (codes "you") ∷ []) []).1,
              ),
            ))
          × Runs (started_options false) n)
start_node_example =
    start_node_lem (host_of (codes "me")) marking (λ sk. none) (peer_of (codes "you") ∷ []) true
      false all_well begun []

-- A download of the song that has not finished.
abbrev downloading : ContentMatrix ℕ
downloading = record new_entry { tag = song_key; download_started_at = 5 }

-- The library over a started node, with that download and with a hook.
abbrev in_use : Library (Dict Str) (List Str) ℕ
in_use = record begun {
  comm = record a_daemon {
    node = some no_node;
    repo = record a_repo {
      m_keeper = record a_repo.m_keeper { content_matrix = (codes "h", downloading) ∷ [] };
    };
  };
  hook = some [];
}

found_calmly : (t : Str) → find_tag map_store t with_song ≢ panic
unfolding find_tag
found_calmly t = calm (lookup t with_song) refl
  where
    calm : (v : Option Str) → lookup t with_song ≡ v → find_tag map_store t with_song ≢ panic
    calm none e p = absurd (ground (arith, e, p))
    calm (some b) e p = absurd (ground (arith, e, p))

peer_session_example :
    (sent : List ContentMetatag) × (h1 h2 : Library (Dict Str) (List Str) ℕ) × (on_connected
        map_store 7
        (codes "q")
        with_song
        in_use
      ≡ (ok sent, h1))
    × (on_disconnected 8 9 (codes "q") h1 ≡ ok h2)
    × ((hash : Str) (c : ContentMatrix ℕ) (meta : ContentMetatag)
        → In (hash, c) in_use.comm.repo.m_keeper.content_matrix
        → c.download_finished_at ≡ 0
        → find_tag map_store c.tag with_song ≡ ok meta
        → In meta sent)
    × (node_of (codes "q") (matrix_of h1)
        ≡ after_connection 7 (node_of (codes "q") (matrix_of in_use)))
    × (node_of (codes "q") (matrix_of h2)
        ≡ after_disconnection 7 8 9 (node_of (codes "q") (matrix_of in_use)))
    × ((q : Str)
        → q ≢ codes "q"
        → lookup q (matrix_of h2).nodes_discovered ≡ lookup q (matrix_of in_use).nodes_discovered)
    × (h2.comm.repo.m_keeper.content_matrix ≡ in_use.comm.repo.m_keeper.content_matrix)
    × (h2.hook ≡ some (peer_disconnected (codes "q") ∷ peer_connected (codes "q") ∷ []))
peer_session_example =
    peer_session map_store plain_keys in_use no_node [] (codes "q") 7 8 9 with_song refl refl
      found_calmly

-- The library that Init makes of a repository that was closed before.
abbrev after_init : Library (Dict Str) (List Str) ℕ
after_init = record begun {
  comm = reopened;
  discovery = record (new_discovery_service (codes "p") 1000 20000 service_tag empty_matrix) {
    notifees = 0 ∷ [];
  };
}

abbrev init_ran : Result (Library (Dict Str) (List Str) ℕ) × (Bool × Dict Str)
init_ran =
    init_library locked_files map_datastore kept_disk (List Str) ℕ (codes "/r") (ok some_config)
      none (false, configured)

abbrev start_ran : Result (Unit {0}) × (HopOf (Dict Str) (List Str) ℕ × List Str)
start_ran =
    start_node (host_of (codes "me")) marking (λ sk. none) (peer_of (codes "you") ∷ []) true false
      all_well (some after_init) []

inits : init_ran ≡ (ok after_init, init_ran.1)
unfolding init_library init_root init_repo init_config initialised new_discovery_service lookup
    str_eq new_common open_repo unlock_unless_ok open_locked open_state_or_close open_state
    set_state insert load_state_keeper create_keeper addresses_config new_matrix_keeper init_state
    read_state read_keeper get_config flush
inits = refl

online_after_start_example :
    (is_node_online (some after_init) ≡ panic)
    × (is_node_online start_ran.1.0 ≡ ok true)
    × (id (some after_init) ≡ ok (codes "p"))
    × (id start_ran.1.0 ≡ id (some after_init))
    × (after_init.discovery.id ≡ codes "p")
    × ((stopped : HopOf (Dict Str) (List Str) ℕ) × (stop_node start_ran.1.0 ≡ ok stopped)
        × (is_node_online stopped ≡ ok false))
unfolding start_node start new_node config_error get_config
online_after_start_example =
    online_after_start locked_files map_datastore kept_disk (List Str) ℕ (host_of (codes "me"))
      marking (λ sk. none) (peer_of (codes "you") ∷ []) true false all_well (codes "/r")
      (ok some_config) none (false, configured) init_ran.1 [] start_ran.1.1 after_init start_ran.1.0
      inits refl
