-- ===== src/Replication/Hooks/Known.antt =====
-- What the node knows after a hook: its filter and its group states.
use ipfs_lite.Prelude.{
  ◌≡◌, refl, ◌≢◌, ◌⊎◌, arith, Bool, true, false, List, [], ◌∷◌, ◌++◌, Str, str_eq_iff, has_prefix,
  Dict, Result, ok, err, panic,
}
use ipfs_lite.Extern.Crdt.{Crdt}
use ipfs_lite.Extern.Keys.{Keys}
use ipfs_lite.Extern.KeyParts.{KeyParts}
use ipfs_lite.Extern.Bloom.{Bloom}
use ipfs_lite.Extern.FileSystem.{FileSystem}
use ipfs_lite.Extern.Json.{Json, decode}
use ipfs_lite.Repo.StateKeeper.{State, add_or_update_state, save_states, update_state}
use ipfs_lite.Repo.StateFile.{set_state}
use ipfs_lite.Replication.Types.{ContentMetatag, GroupMetadata}
use ipfs_lite.Replication.Tags.{group_prefix, group_member_prefix, group_index_prefix}
use ipfs_lite.Replication.Hooks.{Local, update_keeper, add_to_state, deliver, content_put, put_hook}

module _ (fs : FileSystem) {Filter : Type 0} ⦃bl : Bloom Filter⦄ ⦃fj : Json Filter⦄
    ⦃sj : Json (Dict (State Filter))⦄ where
  pub update_keeper_lem :
      (name : Str) (deltas : List Str) (s s' : Local fs.World Filter)
      → update_keeper fs name deltas s ≡ ok s'
      → (s'.keeper ≡ update_state name true deltas s.keeper)
        × (s'.state ≡ s.state)
        × (s'.queue ≡ s.queue)
  unfolding update_keeper add_or_update_state
  update_keeper_lem name deltas s s' h =
      go (save_states fs (update_state name true deltas s.keeper) s.files).0 refl
    where
      go :
          (r : Result (Unit {0}))
          → (save_states fs (update_state name true deltas s.keeper) s.files).0 ≡ r
          → (s'.keeper ≡ update_state name true deltas s.keeper)
            × (s'.state ≡ s.state)
            × (s'.queue ≡ s.queue)
      go (ok u) e = (ground arith, ground arith, ground arith)
      go (err x) e = (ground arith, ground arith, ground arith)
      go panic e = absurd (ground arith)

  pub add_to_state_lem :
      (tag : Str) (s s' : Local fs.World Filter)
      → add_to_state fs tag s ≡ ok s'
      → (s'.state ≡ bl.add_string s.state tag) × (s'.keeper ≡ s.keeper) × (s'.queue ≡ s.queue)
  unfolding add_to_state
  add_to_state_lem tag s s' h =
      go (set_state fs Filter s.root (bl.add_string s.state tag) s.files).0 refl
    where
      go :
          (r : Result (Unit {0}))
          → (set_state fs Filter s.root (bl.add_string s.state tag) s.files).0 ≡ r
          → (s'.state ≡ bl.add_string s.state tag) × (s'.keeper ≡ s.keeper) × (s'.queue ≡ s.queue)
      go (ok u) e = (ground arith, ground arith, ground arith)
      go (err x) e = (ground arith, ground arith, ground arith)
      go panic e = absurd (ground arith)

module _ (fs : FileSystem) (db : Crdt) (ks : Keys) (kp : KeyParts) {Filter : Type 0}
    ⦃bl : Bloom Filter⦄ ⦃fj : Json Filter⦄ ⦃sj : Json (Dict (State Filter))⦄
    ⦃gj : Json GroupMetadata⦄ ⦃mj : Json ContentMetatag⦄ (host : Str) (own_key : ks.PubKey) where
  open db use {World, new_key, get, query}
  open ks use {raw, base64, id_string}

  -- Content whose key has none of the three group prefixes, whose value decodes, and that the
  -- node itself owns or does not download by itself: when the put hook returns, the node's filter
  -- passes the content's tag and every tag that it passed before, and the group states and the
  -- download channel are as before.
  pub own_content_known :
      (auto : Bool) (k v t : Str) (m : ContentMetatag) (w : World) (s s' : Local fs.World Filter)
      → has_prefix k group_member_prefix ≡ false
      → has_prefix k group_prefix ≡ false
      → has_prefix k group_index_prefix ≡ false
      → decode v ≡ ok m
      → (host ≡ m.owner) ⊎ (auto ≡ false)
      → bl.test_string s.state t ≡ true
      → put_hook fs db ks kp host own_key auto k v w s ≡ ok s'
      → (bl.test_string s'.state m.tag ≡ true)
        × (bl.test_string s'.state t ≡ true)
        × (s'.keeper ≡ s.keeper)
        × (s'.queue ≡ s.queue)
  unfolding put_hook content_put deliver
  own_content_known auto k v t m w s s' pm pg pi d own passes h =
      let added : add_to_state fs m.tag s ≡ ok s' = ground (arith, str_eq_iff host m.owner) in
      let (es, ek, eq) = add_to_state_lem fs m.tag s s' added in
      (rw es (bl.test-add s.state m.tag), rw es (bl.test-add_mono s.state m.tag t passes), ek, eq)

  -- Content of another peer whose key has none of the three group prefixes and whose value
  -- decodes is sent to the download channel, where the node downloads by itself, and nothing else
  -- changes: the filter does not count it as there yet.
  pub other_content_queued :
      (k v : Str) (m : ContentMetatag) (w : World) (s : Local fs.World Filter)
      → has_prefix k group_member_prefix ≡ false
      → has_prefix k group_prefix ≡ false
      → has_prefix k group_index_prefix ≡ false
      → decode v ≡ ok m
      → host ≢ m.owner
      → put_hook fs db ks kp host own_key true k v w s ≡ ok (record s { queue = s.queue ++ m ∷ [] })
  unfolding put_hook content_put deliver
  other_content_queued k v m w s pm pg pi d other = ground (arith, str_eq_iff host m.owner)
