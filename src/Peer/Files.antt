-- ===== src/Peer/Files.antt =====
-- Files in the node's DAG, internal/ipfs/ipfs.go: AddFile, GetFile, HasBlock and Download.
pub mod Reading
pub mod Downloading
use ipfs_lite.Prelude.{
  ℕ, zero, suc, Bool, true, false, Option, none, some, [], codes, Str, str_eq, Int64, add64, Error,
  Result, ok, err, panic, ◌==◌, if◌then◌else◌,
}
use ipfs_lite.Prelude.Io.{Io, pure, fail, lift, ◌>>=◌}
use ipfs_lite.Extern.Dag.{Dag, DagNode, ReadEnd, more, eof, failed}

pub record AddParams : Type 0 where
  pub layout : Str
  pub chunker : Str
  pub raw_leaves : Bool
  pub hidden : Bool
  pub shard : Bool
  pub no_copy : Bool
  pub hash_fun : Str

-- The parameters that a nil pointer stands for, and the default hash function.
unfoldable pub with_defaults : Option AddParams → AddParams
with_defaults none = record {
  layout = [];
  chunker = [];
  raw_leaves = false;
  hidden = false;
  shard = false;
  no_copy = false;
  hash_fun = codes "sha2-256";
}
with_defaults (some p) =
    if str_eq p.hash_fun [] then record p { hash_fun = codes "sha2-256" } else p

-- What one round of the loop of `Download` does: another round with so many bytes read, or the end.
pub data Round : Type 0 where
  again : Int64 → Round
  stop : Result Int64 → Round

unfoldable pub round : ℕ → ReadEnd → Int64 → Round
round n (failed e) nr = stop (err e)
round n more nr = again (add64 nr n)
round n eof nr = if n == 0 then stop (ok nr) else again (add64 nr n)

module _ (dg : Dag) where
  open dg use {World, Reader, Builder}

  -- The `switch` over the layouts.
  unfoldable pub lay_out : Str → Builder → Io World DagNode
  lay_out layout b =
      if str_eq layout (codes "trickle")
      then dg.trickle b
      else if str_eq layout (codes "balanced")
      then dg.balanced b
      else if str_eq layout []
      then dg.balanced b
      else fail Error.invalid_layout

  unfoldable pub known_hash : Str → Result ℕ
  known_hash name = elim (dg.hash_code (dg.to_lower name)) [
    | none ↦ err Error.unknown_hash
    | some code ↦ ok code
  ]

  -- `AddFile`, for a reader of the whole content.
  unfoldable pub add_file : Str → Option AddParams → Io World DagNode
  unfolding with_defaults
  add_file content params =
      let p = with_defaults params in
      do
        prefix ← lift (dg.prefix_for_cid_version 1)
        code ← lift (known_hash p.hash_fun)
        chunks ← lift (dg.from_string content p.chunker)
        b ← lift (dg.new_builder p.raw_leaves p.no_copy (dg.with_hash code prefix) chunks)
        lay_out p.layout b

  -- `GetFile`, read to the end.
  unfoldable pub get_file : Str → World → Result Str
  get_file c w = elim (dg.get_node c w) [ ok n ↦ dg.read_node n w | err e ↦ err e | panic ↦ panic ]

  -- The loop of `Download`, with `nr` bytes read; `none` where the fuel ends before the loop does.
  unfoldable pub download_loop : ℕ → Reader → Int64 → Option (Result Int64)
  unfolding round
  download_loop zero r nr = none
  download_loop (suc fuel) r nr =
      let ((n, e), r') = dg.read r 4096 in
      elim (round n e nr) [ again nr' ↦ download_loop fuel r' nr' | stop result ↦ some result ]

  -- `Download`: the number of the bytes, which it logs.
  unfoldable pub download : ℕ → Str → World → Option (Result Int64)
  download fuel c w = elim (dg.get_node c w) [
    | ok n ↦ elim (dg.new_reader n w) [
      | ok r ↦ download_loop fuel r 0
      | err e ↦ some (err e)
      | panic ↦ some panic
    ]
    | err e ↦ some (err e)
    | panic ↦ some panic
  ]
