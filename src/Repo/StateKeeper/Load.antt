-- ===== src/Repo/StateKeeper/Load.antt =====
-- What a later start of the node loads.
use ipfs_lite.Prelude.{
  sym, ◌∙◌, ◌≡◌, refl, Bool, List, [], arith, Str, Dict, lookup, Result, ok, err, panic,
}
use ipfs_lite.Extern.Bloom.{Bloom}
use ipfs_lite.Extern.FileSystem.{FileSystem, found, not_exist}
use ipfs_lite.Extern.Json.{Json, decode-marshal}
use ipfs_lite.Repo.StateKeeper.{
  State, StateKeeper, state_keeper_file, filter_of, update_state, load_state_keeper, read_keeper,
  create_keeper, save_states, add_or_update_state,
}

module _ (fs : FileSystem) {Filter : Type 0} ⦃bl : Bloom Filter⦄
    ⦃js : Json (Dict (State Filter))⦄ where
  open fs use {World, join, stat, create, read_file, write_file}

  -- Where the file holds the JSON of a map, loading gives that map and changes nothing.
  load-file :
      (root d : Str) (m : Dict (State Filter)) (w : World)
      → js.marshal m ≡ ok d
      → stat (join root state_keeper_file) w ≡ found
      → read_file (join root state_keeper_file) w ≡ ok d
      → load_state_keeper fs root w ≡ (ok (record { states = m; root = root }), w)
  unfolding load_state_keeper read_keeper
  load-file root d m w e there content = ground (arith, decode-marshal m d e)

  -- Saving that succeeds is undone by loading: the file then holds the keeper.
  load-save :
      (s : StateKeeper Filter) (w w' : World)
      → save_states fs s w ≡ (ok tt, w')
      → load_state_keeper fs s.root w' ≡ (ok s, w')
  unfolding save_states
  load-save s w w' h = go (js.marshal s.states) refl
    where
      go : (r : Result Str) → js.marshal s.states ≡ r → load_state_keeper fs s.root w' ≡ (ok s, w')
      go (ok d) e =
          load-file s.root d s.states w' e
            (fs.stat-write (join s.root state_keeper_file) d w w' (ground arith))
            (fs.read-write (join s.root state_keeper_file) d w w' (ground arith))
      go (err x) e = absurd (ground arith)
      go panic e = absurd (ground arith)

  -- An update that reports success returns the filter of the updated state, and a restart loads
  -- exactly the keeper that the update left in memory.
  pub load-add_or_update :
      (name : Str) (membership : Bool) (deltas : List Str) (s s' : StateKeeper Filter) (f : Filter)
      (w w' : World)
      → add_or_update_state fs name membership deltas s w ≡ (s', ok f, w')
      → (s' ≡ update_state name membership deltas s)
        × (f ≡ filter_of (lookup name s'.states))
        × (load_state_keeper fs s.root w' ≡ (ok s', w'))
  unfolding add_or_update_state update_state
  load-add_or_update name membership deltas s s' f w w' h =
      go (save_states fs (update_state name membership deltas s) w).0 refl
    where
      go :
          (r : Result (Unit {0}))
          → (save_states fs (update_state name membership deltas s) w).0 ≡ r
          → (s' ≡ update_state name membership deltas s)
            × (f ≡ filter_of (lookup name s'.states))
            × (load_state_keeper fs s.root w' ≡ (ok s', w'))
      go (ok u) e = (
        ground arith,
        ground arith,
        ground (arith, load-save (update_state name membership deltas s) w w'),
      )
      go (err x) e = absurd (ground arith)
      go panic e = absurd (ground arith)

  create-stores :
      (root : Str) (w w' : World) (s : StateKeeper Filter)
      → create_keeper fs root w ≡ (ok s, w')
      → (s ≡ record { states = []; root = root }) × (load_state_keeper fs root w' ≡ (ok s, w'))
  unfolding create_keeper
  create-stores root w w' s h = go (js.marshal []) refl
    where
      w1 : World
      w1 = (create (join root state_keeper_file) w).1

      go :
          (r : Result Str)
          → js.marshal [] ≡ r
          → (s ≡ record { states = []; root = root }) × (load_state_keeper fs root w' ≡ (ok s, w'))
      go (ok d) e = (
        ground arith,
        ground (
          arith,
          load-file root d [] w' e,
          fs.stat-write (join root state_keeper_file) d w1 w',
          fs.read-write (join root state_keeper_file) d w1 w',
        ),
      )
      go (err x) e = absurd (ground arith)
      go panic e = absurd (ground arith)

  load-not_exist :
      (root : Str) (w : World)
      → stat (join root state_keeper_file) w ≡ not_exist
      → load_state_keeper fs {Filter = Filter} root w ≡ create_keeper fs root w
  unfolding load_state_keeper
  load-not_exist root w fresh = ground arith

  -- A start on a root without a keeper file, if it succeeds, has the empty keeper, and the next
  -- start on that root loads the empty keeper too.
  pub load-create :
      (root : Str) (w w' : World) (s : StateKeeper Filter)
      → stat (join root state_keeper_file) w ≡ not_exist
      → load_state_keeper fs root w ≡ (ok s, w')
      → (s ≡ record { states = []; root = root }) × (load_state_keeper fs root w' ≡ (ok s, w'))
  load-create root w w' s fresh h =
      create-stores root w w' s (sym (load-not_exist root w fresh) ∙ h)
