-- ===== src/Repo/StateKeeper.antt =====
-- The state keeper, internal/repo/state.go: for each group a Bloom filter of the tags that the node
-- has, and whether it is a member; stored as JSON in the file .statekeeper of the repository. Every
-- method holds the keeper's mutex, so each is one step.
pub mod Update
pub mod Load
use ipfs_lite.Prelude.{
  Bool, true, false, List, [], ◌∷◌, Option, none, some, codes, Str, Dict, lookup, insert, Error,
  Result, ok, err, panic,
}
use ipfs_lite.Prelude.Io.{Io, pure, fail, lift, gets, ◌>>=◌, ◌>>◌}
use ipfs_lite.Extern.Bloom.{Bloom}
use ipfs_lite.Extern.FileSystem.{FileSystem, Stat, found, not_exist, failed}
use ipfs_lite.Extern.Json.{Json, decode}

abbrev pub state_keeper_file : Str
state_keeper_file = codes ".statekeeper"

pub record State (Filter : Type 0) : Type 0 where
  pub filter : Filter
  pub membership : Bool

pub record StateKeeper (Filter : Type 0) : Type 0 where
  pub states : Dict (State Filter)
  pub root : Str

module _ {Filter : Type 0} ⦃bl : Bloom Filter⦄ where
  -- The filter of a name: that of its state, or a new one of 2000 bits and 5 hashes.
  abbrev pub filter_of : Option (State Filter) → Filter
  filter_of none = bl.new 2000 5
  filter_of (some s) = s.filter

  -- `for _, v := range deltas { filter = filter.AddString(v) }`
  unfoldable pub add_strings : List Str → Filter → Filter
  add_strings [] f = f
  add_strings (v ∷ deltas) f = add_strings deltas (bl.add_string f v)

  -- The keeper in memory after `AddOrUpdateState`.
  unfoldable pub update_state : Str → Bool → List Str → StateKeeper Filter → StateKeeper Filter
  update_state name membership deltas s = record s {
    states =
        insert name
          (record {
            filter = add_strings deltas (filter_of (lookup name s.states));
            membership = membership;
          })
          s.states;
  }

  -- `GetState`
  unfoldable pub get_state : Str → StateKeeper Filter → Result (State Filter)
  get_state name s = elim (lookup name s.states) [ none ↦ err Error.no_state | some st ↦ ok st ]

module _ (fs : FileSystem) {Filter : Type 0} ⦃bl : Bloom Filter⦄
    ⦃js : Json (Dict (State Filter))⦄ where
  open fs use {World, join, stat, create, read_file, write_file}

  -- The file is not there: it is created, with the JSON of the empty map.
  unfoldable pub create_keeper : Str → Io World (StateKeeper Filter)
  create_keeper root = do
    create (join root state_keeper_file)
    d ← lift (js.marshal [])
    write_file (join root state_keeper_file) d
    pure (record { states = []; root = root })

  -- The file is there: its JSON is the map.
  unfoldable pub read_keeper : Str → Io World (StateKeeper Filter)
  read_keeper root = do
    content ← gets (read_file (join root state_keeper_file))
    d ← lift (decode content)
    pure (record { states = d; root = root })

  -- `LoadStateKeeper`
  unfoldable pub load_state_keeper : Str → Io World (StateKeeper Filter)
  load_state_keeper root w = elim (stat (join root state_keeper_file) w) [
    | found ↦ read_keeper root w
    | not_exist ↦ create_keeper root w
    | failed e ↦ (err e, w)
  ]

  -- `saveStates`, and `SaveStates` under the mutex. Both also return the keeper's own map.
  unfoldable pub save_states : StateKeeper Filter → Io World (Unit {0})
  save_states s = do d ← lift (js.marshal s.states); write_file (join s.root state_keeper_file) d

  -- `AddOrUpdateState`: the map is changed before it is saved, and stays changed if that fails.
  unfoldable pub add_or_update_state :
      Str
      → Bool
      → List Str
      → StateKeeper Filter
      → World
      → StateKeeper Filter × Result Filter × World
  add_or_update_state name membership deltas s w =
      let s' = update_state name membership deltas s in
      let (saved, w') = save_states s' w in
      (
        s',
        elim saved [
          | ok _ ↦ ok (filter_of (lookup name s'.states))
          | err e ↦ err e
          | panic ↦ panic
        ],
        w',
      )
