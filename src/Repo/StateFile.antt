-- ===== src/Repo/StateFile.antt =====
-- The file of the node's own Bloom filter, internal/repo/repo.go: SetState, initState and openState.
pub mod Saved
use ipfs_lite.Prelude.{Str, codes, Result, ok, err, panic}
use ipfs_lite.Prelude.Io.{Io, pure, lift, gets, ◌>>=◌, ◌>>◌}
use ipfs_lite.Extern.Bloom.{Bloom}
use ipfs_lite.Extern.FileSystem.{FileSystem, Stat, found, not_exist, failed}
use ipfs_lite.Extern.Json.{Json, decode}

abbrev pub default_state_file : Str
default_state_file = codes "state"

module _ (fs : FileSystem) (Filter : Type 0) ⦃bl : Bloom Filter⦄ ⦃fj : Json Filter⦄ where
  open fs use {World, join, stat, create, read_file, write_file}

  -- `SetState`: the file is emptied or created before the filter is marshalled.
  unfoldable pub set_state : Str → Filter → Io World (Unit {0})
  set_state path state = do
    create (join path default_state_file)
    b ← lift (fj.marshal state)
    write_file (join path default_state_file) b

  -- `initState`
  unfoldable pub init_state : Str → Io World (Unit {0})
  init_state path = set_state path (bl.new 2000 5)

  -- The rest of `openState`, once the file is open.
  unfoldable pub read_state : Str → Io World Filter
  read_state path = do buf ← gets (read_file (join path default_state_file)); lift (decode buf)

  -- `openState`: a missing file is made first.
  unfoldable pub open_state : Str → Io World Filter
  unfolding init_state read_state
  open_state path w = elim (stat (join path default_state_file) w) [
    | found ↦ read_state path w
    | not_exist ↦ (do init_state path; read_state path) w
    | failed e ↦ (err e, w)
  ]
