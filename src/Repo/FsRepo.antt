-- ===== src/Repo/FsRepo.antt =====
-- The repository on disk, internal/repo/repo.go: Init, Open, Close and the accessors.
pub mod Keeps
pub mod Lock
use ipfs_lite.Prelude.{
  Bool, true, false, codes, Str, Dict, Error, Result, ok, err, panic, if◌then◌else◌,
}
use ipfs_lite.Prelude.Io.{Io, pure, lift, gets, ◌>>=◌, ◌>>◌}
use ipfs_lite.Extern.Bloom.{Bloom}
use ipfs_lite.Extern.Datastore.{Datastore}
use ipfs_lite.Extern.Disk.{Disk}
use ipfs_lite.Extern.FileSystem.{FileSystem, Stat, found, not_exist, failed}
use ipfs_lite.Extern.Json.{Json, decode}
use ipfs_lite.Matrix.Node.{NodeMatrix}
use ipfs_lite.Matrix.Content.{ContentMatrix}
use ipfs_lite.Matrix.Keeper.{MatrixKeeper, new_matrix_keeper}
use ipfs_lite.Repo.Config.{Config}
use ipfs_lite.Repo.StateFile.{init_state, open_state}
use ipfs_lite.Repo.StateKeeper.{State, StateKeeper, load_state_keeper}

abbrev pub lock_file : Str
lock_file = codes "repo.lock"

abbrev pub default_datastore_folder : Str
default_datastore_folder = codes "datastore"

abbrev pub default_config_file : Str
default_config_file = codes "config"

-- An opened repository, with its datastore; the lock is held through the world.
pub record FsRepo (Store Filter F : Type 0) : Type 0 where
  pub closed : Bool
  pub path : Str
  pub config : Config
  pub store : Store
  pub state : Filter
  pub m_keeper : MatrixKeeper F
  pub state_keeper : StateKeeper Filter

-- `Config`
unfoldable pub get_config : {Store Filter F : Type 0} → FsRepo Store Filter F → Result Config
get_config r = if r.closed then err Error.repo_closed else ok r.config

module _ (fs : FileSystem) (ds : Datastore) (dk : Disk fs ds) where
  -- The calls of `close` after `r.cancel()`: whether it is closed now, and the result. A datastore
  -- that does not close keeps the lock.
  unfoldable pub close_parts : ds.World → fs.World → Bool × Result (Unit {0}) × fs.World
  close_parts store w =
      let (closed, w1) = dk.close_datastore store w in
      elim closed [
        | ok _ ↦ let (r, w2) = dk.unlock w1 in (true, r, w2)
        | err e ↦ (false, err e, w1)
        | panic ↦ (false, panic, w1)
      ]

  -- `Close`
  unfoldable pub close_repo :
      {Filter F : Type 0}
      → FsRepo ds.World Filter F
      → fs.World
      → FsRepo ds.World Filter F × Result (Unit {0}) × fs.World
  close_repo r w =
      let (now, result, w') = close_parts r.store w in
      (if now then record r { closed = true } else r, result, w')

  -- The deferred function of `open`: the lock is kept on success only.
  unfoldable pub unlock_unless_ok : {A : Type 0} → Result A × fs.World → Result A × fs.World
  unlock_unless_ok (ok a, w) = (ok a, w)
  unlock_unless_ok (err e, w) = (err e, (dk.unlock w).1)
  unlock_unless_ok (panic, w) = (panic, (dk.unlock w).1)

  -- `initConfig`: the file is closed, which replaces the old one, whether it was written or not.
  unfoldable pub init_config : ⦃cj : Json Config⦄ → Str → Config → Io fs.World (Unit {0})
  init_config ⦃cj⦄ path conf =
      let file = fs.join path default_config_file in
      let write : Io fs.World (Unit {0}) = do b ← lift (cj.marshal conf); dk.atomic_write file b
      in do
        dk.mkdir_all (dk.dir file)
        dk.atomic_new file
        λ w. let (r, w1) = write w in (r, (dk.atomic_close file w1).1)

module _ (fs : FileSystem) (ds : Datastore) (dk : Disk fs ds) (Filter F : Type 0)
    ⦃bl : Bloom Filter⦄ ⦃fj : Json Filter⦄ ⦃sj : Json (Dict (State Filter))⦄ ⦃cj : Json Config⦄
    ⦃nj : Json NodeMatrix⦄ ⦃mj : Json (Dict (ContentMatrix F))⦄ where
  -- `Init`, with what `config.NewConfig` returns. A path whose state is not known counts as
  -- initialised.
  unfoldable pub init_repo : Str → Result Config → Io fs.World (Unit {0})
  init_repo path new w = elim (fs.stat (fs.join path default_config_file) w) [
    | found ↦ (ok tt, w)
    | failed _ ↦ (ok tt, w)
    | not_exist ↦ (do conf ← lift new; init_config fs ds dk path conf; init_state fs Filter path) w
  ]

  -- `openState` in `open`: on an error `open` calls `close`, whose `cancel` is not set yet.
  unfoldable pub open_state_or_close : Str → Io fs.World Filter
  open_state_or_close path w =
      let (r, w') = open_state fs Filter path w in
      elim r [ ok s ↦ (ok s, w') | err _ ↦ (panic, w') | panic ↦ (panic, w') ]

  -- The part of `open` that holds the lock.
  unfoldable pub open_locked : Str → Io fs.World (FsRepo ds.World Filter F)
  open_locked path = do
    b ← gets (fs.read_file (fs.join path default_config_file))
    conf ← lift (decode b)
    store ← dk.open_datastore (fs.join path default_datastore_folder)
    s ← open_state_or_close path
    sk ← load_state_keeper fs path
    pure (record {
      closed = false;
      path = path;
      config = conf;
      store = store;
      state = s;
      m_keeper = new_matrix_keeper ds store;
      state_keeper = sk;
    })

  -- `Open`
  unfoldable pub open_repo : Str → Io fs.World (FsRepo ds.World Filter F)
  open_repo path = do
    p ← lift (dk.expand path)
    dk.lock p lock_file
    λ w. unlock_unless_ok fs ds dk (open_locked p w)
