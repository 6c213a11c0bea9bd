-- ===== src/Peer/Dirs.antt =====
-- Directories in the node's DAG, internal/ipfs/ipfs.go: AddDir; and the node as the store's contents.
pub mod Stored
use ipfs_lite.Prelude.{ℕ, Bool, true, false, Option, none, some, [], Str, Result, ok, err, panic}
use ipfs_lite.Prelude.Io.{Io}
use ipfs_lite.Extern.Dag.{Dag, DagNode}
use ipfs_lite.Extern.Mfs.{Mfs}
use ipfs_lite.Peer.Adder.{Tree, Adder, Adding, add_all}
use ipfs_lite.Peer.Delete.{delete_file}
use ipfs_lite.Peer.Files.{AddParams, with_defaults, add_file, get_file}
use ipfs_lite.Peer.Files.Reading.{get_file-add_file}
use ipfs_lite.Store.Content.{Contents}

-- `serial_file` is `os.Lstat` with `files.NewSerialFile`.
module _ (dg : Dag) (mf : Mfs dg) (serial_file : Str → dg.World → Result Tree) where
  -- `NewAdder`, with the switches that `AddDir` sets
  unfoldable pub adder_of : AddParams → dg.Prefix → Adder dg mf
  adder_of p prefix = record {
    trickle = false;
    raw_leaves = p.raw_leaves;
    silent = false;
    no_copy = p.no_copy;
    chunker = p.chunker;
    cid_builder = prefix;
    sync = none;
  }

  unfoldable pub new_adding : dg.World → Adding dg mf
  new_adding w = record { root = none; live_nodes = 0; out = none; world = w }

  -- `AddDir`; `none` where the fuel ends before the directories do.
  unfoldable pub add_dir :
      ℕ → Str → Option AddParams → dg.World → Option (Result DagNode × dg.World)
  unfolding adder_of new_adding with_defaults
  add_dir fuel dir params w = elim (serial_file dir w) [
    | ok tree ↦ elim (dg.prefix_for_cid_version 1) [
      | ok prefix ↦
          elim (add_all (adder_of (with_defaults params) prefix) fuel tree (new_adding w)) [
            | none ↦ none
            | some (r, s) ↦ some (r, s.world)
          ]
      | err e ↦ some (err e, w)
      | panic ↦ some (panic, w)
    ]
    | err e ↦ some (err e, w)
    | panic ↦ some (panic, w)
  ]

  -- The node as the store calls it, with an empty parameter. A directory that is deeper than the fuel
  -- panics here.
  abbrev pub node_contents : ℕ → (Str → Result Str) → Contents
  node_contents fuel decode_id = record {
    World = dg.World;
    add_file = λ content. add_file dg content none;
    add_dir = λ dir w. elim (add_dir fuel dir none w) [ none ↦ (panic, w) | some r ↦ r ];
    get_file = get_file dg;
    delete_file = delete_file dg;
    cid_string = dg.cid_string;
    decode_id = decode_id;
    get-add_file = λ content n w w' h. get_file-add_file dg content none n w w' h;
  }
