-- ===== src/Repo/StateFile/Saved.antt =====
-- The node's filter is there after a restart.
use ipfs_lite.Prelude.{◌≡◌, refl, arith, Str, Result, ok, err, panic}
use ipfs_lite.Extern.Bloom.{Bloom}
use ipfs_lite.Extern.FileSystem.{FileSystem, found, not_exist}
use ipfs_lite.Extern.Json.{Json, decode-marshal}
use ipfs_lite.Repo.StateFile.{default_state_file, set_state, init_state, read_state, open_state}

module _ (fs : FileSystem) (Filter : Type 0) ⦃bl : Bloom Filter⦄ ⦃fj : Json Filter⦄ where
  open fs use {World, join, stat, create, read_file, write_file}

  set_state-write :
      (path : Str) (s : Filter) (w w' : World)
      → set_state fs Filter path s w ≡ (ok tt, w')
      → (b : Str) × (w1 : World) × (fj.marshal s ≡ ok b)
        × (write_file (join path default_state_file) b w1 ≡ (ok tt, w'))
  unfolding set_state
  set_state-write path s w w' h =
      go (create (join path default_state_file) w).0 refl (fj.marshal s) refl
    where
      go :
          (c : Result (Unit {0}))
          → (create (join path default_state_file) w).0 ≡ c
          → (m : Result Str) → fj.marshal s ≡ m
          → (b : Str) × (w1 : World) × (fj.marshal s ≡ ok b)
            × (write_file (join path default_state_file) b w1 ≡ (ok tt, w'))
      go (ok u) e (ok b) e' = (b, (create (join path default_state_file) w).1, e', ground arith)
      go (ok u) e (err x) e' = absurd (ground arith)
      go (ok u) e panic e' = absurd (ground arith)
      go (err x) e m e' = absurd (ground arith)
      go panic e m e' = absurd (ground arith)

  saved_lem :
      (path : Str) (s : Filter) (w w' : World)
      → set_state fs Filter path s w ≡ (ok tt, w')
      → (stat (join path default_state_file) w' ≡ found)
        × (read_state fs Filter path w' ≡ (ok s, w'))
  unfolding read_state
  saved_lem path s w w' h =
      let (b, w1, eb, written) = set_state-write path s w w' h in
      let read = fs.read-write (join path default_state_file) b w1 w' written in
      let d = decode-marshal s b eb in
      (fs.stat-write (join path default_state_file) b w1 w' written, ground (arith, read, d))

  -- A filter that SetState has saved without an error is the one that the next start opens, and
  -- opening it changes no file.
  pub open-set_state :
      (path : Str) (s : Filter) (w w' : World)
      → set_state fs Filter path s w ≡ (ok tt, w')
      → open_state fs Filter path w' ≡ (ok s, w')
  unfolding open_state
  open-set_state path s w w' h = ground (arith, saved_lem path s w w' h)

  -- A start on a root without a state file, if it succeeds, has the empty filter, and so has the
  -- next start.
  pub open-open_state :
      (path : Str) (s : Filter) (w w' : World)
      → stat (join path default_state_file) w ≡ not_exist
      → open_state fs Filter path w ≡ (ok s, w')
      → (s ≡ bl.new 2000 5) × (open_state fs Filter path w' ≡ (ok s, w'))
  unfolding open_state init_state
  open-open_state path s w w' missing h = go (set_state fs Filter path (bl.new 2000 5) w).0 refl
    where
      go :
          (r : Result (Unit {0}))
          → (set_state fs Filter path (bl.new 2000 5) w).0 ≡ r
          → (s ≡ bl.new 2000 5) × (open_state fs Filter path w' ≡ (ok s, w'))
      go (ok u) e =
          let w1 = (set_state fs Filter path (bl.new 2000 5) w).1 in
          let (there, read) = saved_lem path (bl.new 2000 5) w w1 (ground arith) in
          (ground arith, ground arith)
      go (err x) e = absurd (ground arith)
      go panic e = absurd (ground arith)
