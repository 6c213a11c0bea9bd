-- ===== src/Daemon/Restart.antt =====
-- A daemon that was stopped finds its matrix again.
use mathlib.Core.Path.{subst}
use ipfs_lite.Prelude.{
  arith, ◌≡◌, refl, sym, ap, ◌∙◌, true, false, none, Str, Dict, Error, Result, ok, err, panic,
}
use ipfs_lite.Prelude.Io.{Io, pure, lift, gets, bind-ok, lift-bind-ok, ◌>>=◌, ◌>>◌}
use ipfs_lite.Extern.Bloom.{Bloom}
use ipfs_lite.Extern.Datastore.{Datastore}
use ipfs_lite.Extern.Disk.{Disk}
use ipfs_lite.Extern.FileSystem.{FileSystem}
use ipfs_lite.Extern.Json.{Json, decode}
use ipfs_lite.Matrix.Content.{ContentMatrix}
use ipfs_lite.Matrix.Keeper.{flush, new_matrix_keeper}
use ipfs_lite.Matrix.Keeper.Reload.{reload-flush}
use ipfs_lite.Matrix.Node.{NodeMatrix}
use ipfs_lite.Repo.Config.{Config}
use ipfs_lite.Repo.FsRepo.{
  FsRepo, lock_file, default_config_file, default_datastore_folder, get_config, close_parts,
  close_repo, unlock_unless_ok, open_state_or_close, open_locked, open_repo,
}
use ipfs_lite.Repo.StateKeeper.{State, StateKeeper, load_state_keeper}
use ipfs_lite.Daemon.{Common, new_common, stop}

module _ (fs : FileSystem) (ds : Datastore) (dk : Disk fs ds) (Filter F : Type 0)
    ⦃bl : Bloom Filter⦄ ⦃fj : Json Filter⦄ ⦃sj : Json (Dict (State Filter))⦄ ⦃cj : Json Config⦄
    ⦃nj : Json NodeMatrix⦄ ⦃mj : Json (Dict (ContentMatrix F))⦄ where
  made : Str → Config → ds.World → Filter → StateKeeper Filter → FsRepo ds.World Filter F
  made path conf store s sk = record {
    closed = false;
    path = path;
    config = conf;
    store = store;
    state = s;
    m_keeper = new_matrix_keeper ds store;
    state_keeper = sk;
  }

  with_state : Str → Config → ds.World → Filter → Io fs.World (FsRepo ds.World Filter F)
  with_state path conf store s =
      load_state_keeper fs path >>= λ sk. pure (made path conf store s sk)

  with_store : Str → Config → ds.World → Io fs.World (FsRepo ds.World Filter F)
  with_store path conf store =
      open_state_or_close fs ds dk Filter F path >>= with_state path conf store

  with_config : Str → Config → Io fs.World (FsRepo ds.World Filter F)
  with_config path conf =
      dk.open_datastore (fs.join path default_datastore_folder) >>= with_store path conf

  with_text : Str → Str → Io fs.World (FsRepo ds.World Filter F)
  with_text path b = lift (decode b) >>= with_config path

  -- The matrix of an opened repository is the one that its datastore holds.
  open_locked-matrix :
      (path : Str) (w w' : fs.World) (r : FsRepo ds.World Filter F)
      → open_locked fs ds dk Filter F path w ≡ (ok r, w')
      → (r.closed ≡ false) × (r.m_keeper ≡ new_matrix_keeper ds r.store)
  unfolding open_locked with_text with_config with_store with_state made
  open_locked-matrix path w w' r h =
      let (b, w1, e1, h1) =
        bind-ok (gets (fs.read_file (fs.join path default_config_file))) (with_text path) w h in
      let (conf, e2, h2) = lift-bind-ok (decode {A = Config} b) (with_config path) w1 h1 in
      let (store, w3, e3, h3) =
        bind-ok (dk.open_datastore (fs.join path default_datastore_folder)) (with_store path conf)
          w1 h2 in
      let (s, w4, e4, h4) =
        bind-ok (open_state_or_close fs ds dk Filter F path) (with_state path conf store) w3 h3 in
      let (sk, w5, e5, h5) =
        bind-ok (load_state_keeper fs {Filter = Filter} path)
          (λ sk. pure (made path conf store s sk)) w4 h4 in
      let same : made path conf store s sk ≡ r = ground arith in
      subst
        (λ (q : FsRepo ds.World Filter F).
          (q.closed ≡ false) × (q.m_keeper ≡ new_matrix_keeper ds q.store))
        same (refl, refl)

  open_repo-matrix :
      (path : Str) (w w' : fs.World) (r : FsRepo ds.World Filter F)
      → open_repo fs ds dk Filter F path w ≡ (ok r, w')
      → (r.closed ≡ false) × (r.m_keeper ≡ new_matrix_keeper ds r.store)
  unfolding open_repo unlock_unless_ok
  open_repo-matrix path w w' r h =
      let (p, e1, h1) =
        lift-bind-ok (dk.expand path)
          (λ p. dk.lock p lock_file >> λ v.
            unlock_unless_ok fs ds dk (open_locked fs ds dk Filter F p v))
          w h in
      let (u, w1, e2, h2) =
        bind-ok (dk.lock p lock_file)
          (λ _. λ v. unlock_unless_ok fs ds dk (open_locked fs ds dk Filter F p v)) w h1 in
      go p w1 h2 (open_locked fs ds dk Filter F p w1).0 refl
    where
      go :
          (p : Str) (w1 : fs.World)
          → unlock_unless_ok fs ds dk (open_locked fs ds dk Filter F p w1) ≡ (ok r, w')
          → (q : Result (FsRepo ds.World Filter F)) → (open_locked fs ds dk Filter F p w1).0 ≡ q
          → (r.closed ≡ false) × (r.m_keeper ≡ new_matrix_keeper ds r.store)
      go p w1 h2 (ok q) e = open_locked-matrix p w1 w' r (ground arith)
      go p w1 h2 (err x) e = absurd (ground arith)
      go p w1 h2 panic e = absurd (ground arith)

  -- When Stop returns, the context of the node is done, also where the matrix was not flushed or the
  -- repository not closed. Where both were, the lock is released and asking the repository for its
  -- configuration is an error; and a New on the datastore as it was closed has the matrix that the
  -- stopped node had, an open repository, and no node.
  pub new_common-stop :
      (comm comm2 comm' : Common ds.World Filter F) (d d' : ds.World) (w w' v v' : fs.World)
      (root port : Str)
      → stop fs ds dk Filter F comm d w ≡ (ok tt, (comm', (d', w')))
      → (flush ds comm.repo.m_keeper d).0 ≡ ok tt
      → (dk.close_datastore d' w).0 ≡ ok tt
      → (dk.unlock (dk.close_datastore d' w).1).0 ≡ ok tt
      → new_common fs ds dk Filter F root port v ≡ (ok comm2, v')
      → comm2.repo.store ≡ d'
      → (comm'.cancelled ≡ true)
        × (dk.locked w' ≡ false)
        × (get_config comm'.repo ≡ err Error.repo_closed)
        × (comm2.repo.m_keeper ≡ comm.repo.m_keeper)
        × (comm2.repo.closed ≡ false)
        × (comm2.node ≡ none)
  unfolding stop new_common close_repo close_parts get_config
  new_common-stop comm comm2 comm' d d' w w' v v' root port h flushed closed unlocked h2 same =
      let (r, v1, e1, h3) =
        bind-ok (open_repo fs ds dk Filter F root)
          (λ (r : FsRepo ds.World Filter F).
            pure (record { root = root; port = port; repo = r; node = none; cancelled = false }))
          v h2 in
      let (open_, there) = open_repo-matrix root v v1 r e1 in
      let is : comm2.repo ≡ r = ground arith in
      let stored : r.store ≡ d' = ap (λ (q : FsRepo ds.World Filter F). q.store) (sym is) ∙ same in
      let kept = reload-flush ds comm.repo.m_keeper d d' (ground arith) in
      (
        ground arith,
        ground (arith, dk.locked-unlock (dk.close_datastore d' w).1),
        ground arith,
        ap (λ (q : FsRepo ds.World Filter F). q.m_keeper) is
            ∙ there
            ∙ ap (new_matrix_keeper ds) stored
            ∙ kept,
        ap (λ (q : FsRepo ds.World Filter F). q.closed) is ∙ open_,
        ground arith,
      )
