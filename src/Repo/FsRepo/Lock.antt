-- ===== src/Repo/FsRepo/Lock.antt =====
-- The lock of the repository: held by an opened repository, and by nothing else.
use ipfs_lite.Prelude.{
  ◌≢◌, ◌≡◌, refl, ◌∙◌, arith, Bool, true, false, Str, Dict, Error, Result, ok, err, panic,
}
use ipfs_lite.Extern.Bloom.{Bloom}
use ipfs_lite.Extern.Datastore.{Datastore}
use ipfs_lite.Extern.Disk.{Disk}
use ipfs_lite.Extern.FileSystem.{FileSystem}
use ipfs_lite.Extern.Json.{Json, decode}
use ipfs_lite.Matrix.Node.{NodeMatrix}
use ipfs_lite.Matrix.Content.{ContentMatrix}
use ipfs_lite.Repo.Config.{Config}
use ipfs_lite.Repo.StateFile.{open_state}
use ipfs_lite.Repo.StateKeeper.{State}
use ipfs_lite.Repo.FsRepo.{
  FsRepo, lock_file, default_datastore_folder, default_config_file, get_config, close_parts,
  close_repo, unlock_unless_ok, open_state_or_close, open_locked, open_repo,
}
use ipfs_lite.Repo.FsRepo.Keeps.{open_locked-Keeps}

abbrev pub is_ok : {A : Type 0} → Result A → Bool
is_ok (ok a) = true
is_ok (err e) = false
is_ok panic = false

module _ (fs : FileSystem) (ds : Datastore) (dk : Disk fs ds) where
  unlock_unless_ok-is_ok :
      {A : Type 0} (r : Result A) (w : fs.World)
      → dk.locked w ≡ true
      → dk.locked (unlock_unless_ok fs ds dk (r, w)).1 ≡ is_ok (unlock_unless_ok fs ds dk (r, w)).0
  unfolding unlock_unless_ok
  unlock_unless_ok-is_ok (ok a) w h = h
  unlock_unless_ok-is_ok (err e) w h = dk.locked-unlock w
  unlock_unless_ok-is_ok panic w h = dk.locked-unlock w

  -- When Close returns without an error, the lock is released, and asking the repository for its
  -- configuration is an error from then on. When the datastore does not close, Close returns that
  -- error, and the repository and the lock stay as they were.
  pub close_repo_lem :
      {Filter F : Type 0} (r r' : FsRepo ds.World Filter F) (s : FsRepo ds.World Filter F)
      (e : Error) (w w' v v' : fs.World)
      → close_repo fs ds dk r w ≡ (r', ok tt, w')
      → dk.close_datastore s.store v ≡ (err e, v')
      → (dk.locked w' ≡ false)
        × (get_config r' ≡ err Error.repo_closed)
        × (close_repo fs ds dk s v ≡ (s, err e, v'))
        × (dk.locked v' ≡ dk.locked v)
  unfolding close_repo close_parts get_config
  close_repo_lem r r' s e w w' v v' h h' =
      let (unlocked, marked) = go (dk.close_datastore r.store w).0 refl in
      (unlocked, marked, ground arith, ground (arith, dk.locked-close s.store v))
    where
      go :
          (c : Result (Unit {0}))
          → (dk.close_datastore r.store w).0 ≡ c
          → (dk.locked w' ≡ false) × (get_config r' ≡ err Error.repo_closed)
      go (ok u) e' =
          (ground (arith, dk.locked-unlock (dk.close_datastore r.store w).1), ground arith)
      go (err x) e' = absurd (ground arith)
      go panic e' = absurd (ground arith)

module _ (fs : FileSystem) (ds : Datastore) (dk : Disk fs ds) (Filter F : Type 0)
    ⦃bl : Bloom Filter⦄ ⦃fj : Json Filter⦄ ⦃sj : Json (Dict (State Filter))⦄ ⦃cj : Json Config⦄
    ⦃nj : Json NodeMatrix⦄ ⦃mj : Json (Dict (ContentMatrix F))⦄ where
  -- Opening a repository whose lock is free: the lock is held afterwards exactly if Open succeeded.
  -- Every error, and the panic too, releases it. Taking the lock is taken not to panic.
  pub open_repo-locked :
      (path : Str) (w w' : fs.World) (r : Result (FsRepo ds.World Filter F))
      → dk.locked w ≡ false
      → ((p : Str) → (dk.lock p lock_file w).0 ≢ panic)
      → open_repo fs ds dk Filter F path w ≡ (r, w')
      → dk.locked w' ≡ is_ok r
  unfolding open_repo
  open_repo-locked path w w' r free calm h = expanded (dk.expand path) refl
    where
      taken :
          (p : Str)
          → dk.expand path ≡ ok p
          → (l : Result (Unit {0})) → (dk.lock p lock_file w).0 ≡ l
          → dk.locked w' ≡ is_ok r
      taken p ep (ok u) e =
          let w1 = (dk.lock p lock_file w).1 in
          let held = dk.locked-lock p lock_file w w1 (ground arith) in
          ground (
            arith,
            unlock_unless_ok-is_ok fs ds dk (open_locked fs ds dk Filter F p w1).0
                (open_locked fs ds dk Filter F p w1).1
                (open_locked-Keeps fs ds dk Filter F p w1 ∙ held),
          )
      taken p ep (err x) e =
          ground
            (arith, dk.locked-lock_err p lock_file x w (dk.lock p lock_file w).1 (ground arith))
      taken p ep panic e = absurd (calm p e)

      expanded : (x : Result Str) → dk.expand path ≡ x → dk.locked w' ≡ is_ok r
      expanded (ok p) e = taken p e (dk.lock p lock_file w).0 refl
      expanded (err x) e = ground arith
      expanded panic e = ground arith

  -- A state file that does not load makes Open panic: where the lock, the configuration and the
  -- datastore are there and reading the state is an error, the result is a panic, not the error, and
  -- the lock is released.
  pub bad_state_panics :
      (path p b : Str) (conf : Config) (store : ds.World) (e : Error) (w w1 w2 w3 : fs.World)
      → dk.expand path ≡ ok p
      → dk.lock p lock_file w ≡ (ok tt, w1)
      → fs.read_file (fs.join p default_config_file) w1 ≡ ok b
      → decode b ≡ ok conf
      → dk.open_datastore (fs.join p default_datastore_folder) w1 ≡ (ok store, w2)
      → open_state fs Filter p w2 ≡ (err e, w3)
      → (open_repo fs ds dk Filter F path w ≡ (panic, (dk.unlock w3).1))
        × (dk.locked (dk.unlock w3).1 ≡ false)
  unfolding open_repo open_locked open_state_or_close unlock_unless_ok
  bad_state_panics path p b conf store e w w1 w2 w3 hx hl hr hd ho hs =
      (ground arith, dk.locked-unlock w3)
