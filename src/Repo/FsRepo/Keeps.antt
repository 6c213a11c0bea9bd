-- ===== src/Repo/FsRepo/Keeps.antt =====
-- The calls that `open` makes under the lock leave the lock alone.
use ipfs_lite.Prelude.{[], ◌≡◌, refl, arith, false, Str, Dict, Result, ok, err, panic}
use ipfs_lite.Prelude.Io.{Io, pure, lift, gets, ◌>>=◌}
use ipfs_lite.Extern.Bloom.{Bloom}
use ipfs_lite.Extern.Datastore.{Datastore}
use ipfs_lite.Extern.Disk.{Disk}
use ipfs_lite.Extern.FileSystem.{FileSystem, Stat, found, not_exist, failed}
use ipfs_lite.Extern.Json.{Json, decode}
use ipfs_lite.Matrix.Node.{NodeMatrix}
use ipfs_lite.Matrix.Content.{ContentMatrix}
use ipfs_lite.Repo.Config.{Config}
use ipfs_lite.Repo.StateFile.{default_state_file, set_state, init_state, read_state, open_state}
use ipfs_lite.Repo.StateKeeper.{
  State, StateKeeper, state_keeper_file, create_keeper, read_keeper, load_state_keeper,
}
use ipfs_lite.Repo.FsRepo.{
  new_matrix_keeper, FsRepo, default_datastore_folder, default_config_file, open_state_or_close,
  open_locked,
}

module _ (fs : FileSystem) (ds : Datastore) (dk : Disk fs ds) where
  -- A sequence of calls that leaves the lock as it was, whatever it returns.
  abbrev pub Keeps : {A : Type 0} → Io fs.World A → Type 0
  Keeps m = (w : fs.World) → dk.locked (m w).1 ≡ dk.locked w

  bind-Keeps :
      {A B : Type 0} (m : Io fs.World A) (f : A → Io fs.World B)
      → Keeps m
      → ((a : A) → Keeps (f a))
      → Keeps (m >>= f)
  bind-Keeps {A} {B} m f km kf w = go (m w).0 refl
    where
      go : (r : Result A) → (m w).0 ≡ r → dk.locked ((m >>= f) w).1 ≡ dk.locked w
      go (ok a) e = ground (arith, kf a (m w).1, km w)
      go (err x) e = ground (arith, km w)
      go panic e = ground (arith, km w)

module _ (fs : FileSystem) (ds : Datastore) (dk : Disk fs ds) (Filter F : Type 0)
    ⦃bl : Bloom Filter⦄ ⦃fj : Json Filter⦄ ⦃sj : Json (Dict (State Filter))⦄ ⦃cj : Json Config⦄
    ⦃nj : Json NodeMatrix⦄ ⦃mj : Json (Dict (ContentMatrix F))⦄ where
  read_state-Keeps : (path : Str) → Keeps fs ds dk (read_state fs Filter path)
  unfolding read_state
  read_state-Keeps path =
      bind-Keeps fs ds dk (gets (fs.read_file (fs.join path default_state_file))) _ (λ w. refl)
        (λ b w. refl)

  set_state-Keeps : (path : Str) (s : Filter) → Keeps fs ds dk (set_state fs Filter path s)
  unfolding set_state
  set_state-Keeps path s =
      let file = fs.join path default_state_file in
      bind-Keeps fs ds dk (fs.create file) (λ _. lift (fj.marshal s) >>= fs.write_file file)
        (dk.locked-create file)
        (λ _.
          bind-Keeps fs ds dk (lift (fj.marshal s)) (fs.write_file file) (λ w. refl)
            (dk.locked-write file))

  open_state-Keeps : (path : Str) → Keeps fs ds dk (open_state fs Filter path)
  unfolding open_state init_state
  open_state-Keeps path w = go (fs.stat (fs.join path default_state_file) w) refl
    where
      go :
          (s : Stat)
          → fs.stat (fs.join path default_state_file) w ≡ s
          → dk.locked (open_state fs Filter path w).1 ≡ dk.locked w
      go found e = ground (arith, read_state-Keeps path w)
      go not_exist e = ground (
        arith,
        bind-Keeps fs ds dk (set_state fs Filter path (bl.new 2000 5))
            (λ _. read_state fs Filter path) (set_state-Keeps path (bl.new 2000 5))
            (λ _. read_state-Keeps path) w,
      )
      go (failed x) e = ground arith

  open_state_or_close-Keeps :
      (path : Str) → Keeps fs ds dk (open_state_or_close fs ds dk Filter F path)
  unfolding open_state_or_close
  open_state_or_close-Keeps path w = go (open_state fs Filter path w).0 refl
    where
      go :
          (r : Result Filter)
          → (open_state fs Filter path w).0 ≡ r
          → dk.locked (open_state_or_close fs ds dk Filter F path w).1 ≡ dk.locked w
      go (ok s) e = ground (arith, open_state-Keeps path w)
      go (err x) e = ground (arith, open_state-Keeps path w)
      go panic e = ground (arith, open_state-Keeps path w)

  create_keeper-Keeps : (root : Str) → Keeps fs ds dk (create_keeper fs {Filter = Filter} root)
  unfolding create_keeper
  create_keeper-Keeps root =
      let file = fs.join root state_keeper_file in
      let made : StateKeeper Filter = record { states = []; root = root } in
      bind-Keeps fs ds dk (fs.create file)
        (λ _. lift (sj.marshal []) >>= λ d. fs.write_file file d >>= λ _. pure made)
        (dk.locked-create file)
        (λ _.
          bind-Keeps fs ds dk (lift (sj.marshal [])) (λ d. fs.write_file file d >>= λ _. pure made)
            (λ w. refl)
            (λ d.
              bind-Keeps fs ds dk (fs.write_file file d) (λ _. pure made) (dk.locked-write file d)
                (λ _ w. refl)))

  read_keeper-Keeps : (root : Str) → Keeps fs ds dk (read_keeper fs {Filter = Filter} root)
  unfolding read_keeper
  read_keeper-Keeps root =
      let built : Str → Io fs.World (StateKeeper Filter) =
        λ content. lift (decode content) >>= λ d. pure (record { states = d; root = root }) in
      bind-Keeps fs ds dk (gets (fs.read_file (fs.join root state_keeper_file))) built (λ w. refl)
        (λ content.
          bind-Keeps fs ds dk (lift (decode content))
            (λ d. pure {A = StateKeeper Filter} (record { states = d; root = root })) (λ w. refl)
            (λ d w. refl))

  load_state_keeper-Keeps :
      (root : Str) → Keeps fs ds dk (load_state_keeper fs {Filter = Filter} root)
  unfolding load_state_keeper
  load_state_keeper-Keeps root w = go (fs.stat (fs.join root state_keeper_file) w) refl
    where
      go :
          (s : Stat)
          → fs.stat (fs.join root state_keeper_file) w ≡ s
          → dk.locked (load_state_keeper fs {Filter = Filter} root w).1 ≡ dk.locked w
      go found e = ground (arith, read_keeper-Keeps root w)
      go not_exist e = ground (arith, create_keeper-Keeps root w)
      go (failed x) e = ground arith

  pub open_locked-Keeps : (path : Str) → Keeps fs ds dk (open_locked fs ds dk Filter F path)
  unfolding open_locked
  open_locked-Keeps path =
      let built : Config → ds.World → Filter → StateKeeper Filter → FsRepo ds.World Filter F =
        λ conf store s sk. record {
          closed = false;
          path = path;
          config = conf;
          store = store;
          state = s;
          m_keeper = new_matrix_keeper ds store;
          state_keeper = sk;
        } in
      let load : Config → ds.World → Filter → Io fs.World (FsRepo ds.World Filter F) =
        λ conf store s. load_state_keeper fs path >>= λ sk. pure (built conf store s sk) in
      let state : Config → ds.World → Io fs.World (FsRepo ds.World Filter F) =
        λ conf store. open_state_or_close fs ds dk Filter F path >>= load conf store in
      let opened : Config → Io fs.World (FsRepo ds.World Filter F) =
        λ conf. dk.open_datastore (fs.join path default_datastore_folder) >>= state conf in
      bind-Keeps fs ds dk (gets (fs.read_file (fs.join path default_config_file)))
        (λ b. lift (decode b) >>= opened) (λ w. refl)
        (λ b.
          bind-Keeps fs ds dk (lift (decode b)) opened (λ w. refl)
            (λ conf.
              bind-Keeps fs ds dk (dk.open_datastore (fs.join path default_datastore_folder))
                (state conf) (dk.locked-open (fs.join path default_datastore_folder))
                (λ store.
                  bind-Keeps fs ds dk (open_state_or_close fs ds dk Filter F path) (load conf store)
                    (open_state_or_close-Keeps path)
                    (λ s.
                      bind-Keeps fs ds dk (load_state_keeper fs path)
                        (λ sk. pure (built conf store s sk)) (load_state_keeper-Keeps path)
                        (λ sk w. refl)))))
