-- ===== src/Replication/Hooks.antt =====
-- What the node does when the replicated store reports a change: the put and delete hooks of `New`,
-- internal/replication/replication.go, on the node's own filter, its group states and its download
-- channel.
pub mod Known
pub mod Groups
pub mod Panics
use ipfs_lite.Prelude.{
  Bool, true, false, not, ◌&&◌, List, [], ◌∷◌, ◌++◌, map, Option, none, some, codes, Str, str_eq,
  has_prefix, get_elem?, Dict, Error, Result, ok, err, panic, if◌then◌else◌,
}
use ipfs_lite.Extern.Crdt.{Crdt}
use ipfs_lite.Extern.Keys.{Keys}
use ipfs_lite.Extern.KeyParts.{KeyParts}
use ipfs_lite.Extern.Bloom.{Bloom}
use ipfs_lite.Extern.FileSystem.{FileSystem}
use ipfs_lite.Extern.Json.{Json, decode}
use ipfs_lite.Repo.StateKeeper.{State, StateKeeper, add_or_update_state}
use ipfs_lite.Repo.StateFile.{set_state}
use ipfs_lite.Replication.Types.{ContentMetatag, GroupMetadata}
use ipfs_lite.Replication.Tags.{
  group_prefix, group_member_prefix, group_index_prefix, join_slash, member_tag,
}
use ipfs_lite.Replication.Group.{decode_all}

-- The node's own state: the repository's path, its filter and its group states, the files, and what
-- waits on the download channel.
pub record Local (Files Filter : Type 0) : Type 0 where
  pub root : Str
  pub state : Filter
  pub keeper : StateKeeper Filter
  pub files : Files
  pub queue : List ContentMetatag

module _ (fs : FileSystem) {Filter : Type 0} ⦃bl : Bloom Filter⦄ ⦃fj : Json Filter⦄
    ⦃sj : Json (Dict (State Filter))⦄ where
  -- `AddOrUpdateState` under the mutex; its error is logged.
  unfoldable pub update_keeper :
      Str → List Str → Local fs.World Filter → Result (Local fs.World Filter)
  update_keeper name deltas s =
      let (keeper', saved, files') = add_or_update_state fs name true deltas s.keeper s.files in
      let s' : Local fs.World Filter = record s { keeper = keeper'; files = files' } in
      elim saved [ ok _ ↦ ok s' | err _ ↦ ok s' | panic ↦ panic ]

  -- `r.State().Add`, then `SetState`, whose error is logged.
  unfoldable pub add_to_state : Str → Local fs.World Filter → Result (Local fs.World Filter)
  add_to_state tag s =
      let state' = bl.add_string s.state tag in
      let (saved, files') = set_state fs Filter s.root state' s.files in
      let s' : Local fs.World Filter = record s { state = state'; files = files' } in
      elim saved [ ok _ ↦ ok s' | err _ ↦ ok s' | panic ↦ panic ]

module _ (db : Crdt) (ks : Keys) ⦃gj : Json GroupMetadata⦄ ⦃mj : Json ContentMetatag⦄ where
  open db use {World, new_key, get, query}
  open ks use {base64}

  -- `checkMembership`
  unfoldable pub check_membership : Str → Str → World → Result Bool
  check_membership tag key w = elim (get (new_key tag) w) [
    | ok stored ↦ ok (str_eq (base64 key) stored)
    | err _ ↦ ok false
    | panic ↦ panic
  ]

  -- `getContentMetadata`
  unfoldable pub get_content_metadata : Str → World → Result (List ContentMetatag)
  get_content_metadata group w = elim (query (join_slash group_index_prefix group) w) [
    | ok es ↦ ok (decode_all db ks es)
    | err e ↦ err e
    | panic ↦ panic
  ]

module _ (fs : FileSystem) (db : Crdt) (ks : Keys) (kp : KeyParts) {Filter : Type 0}
    ⦃bl : Bloom Filter⦄ ⦃fj : Json Filter⦄ ⦃sj : Json (Dict (State Filter))⦄
    ⦃gj : Json GroupMetadata⦄ ⦃mj : Json ContentMetatag⦄ (host : Str) (own_key : ks.PubKey) where
  open db use {World}
  open ks use {raw, id_string}
  open kp use {key_list, key_name}

  -- A member's key was stored: the part of the hook after its two indexings.
  unfoldable pub joined : Str → Str → World → Local fs.World Filter → Result (Local fs.World Filter)
  joined group user w s =
      if str_eq (id_string host) user
      then elim (get_content_metadata db ks group w) [
        | ok ms ↦ update_keeper fs group (map (λ m. m.tag) ms) s
        | err _ ↦ ok s
        | panic ↦ panic
      ]
      else ok s

  unfoldable pub member_put : Str → World → Local fs.World Filter → Result (Local fs.World Filter)
  unfolding joined
  member_put k w s = elim (get_elem? (key_list k) 2) [
    | none ↦ panic
    | some group ↦ elim (get_elem? (key_list k) 1) [
      | none ↦ panic
      | some user ↦ joined group user w s
    ]
  ]

  -- Content is downloaded, or counted as there.
  unfoldable pub deliver :
      Bool → ContentMetatag → Local fs.World Filter → Result (Local fs.World Filter)
  deliver auto m s =
      if not (str_eq host m.owner) && auto
      then ok (record s { queue = s.queue ++ m ∷ [] })
      else add_to_state fs m.tag s

  -- Content of a group is for its members.
  unfoldable pub group_put :
      Bool → ContentMetatag → Str → World → Local fs.World Filter → Result (Local fs.World Filter)
  unfolding deliver
  group_put auto m group w s = elim (raw own_key) [
    | ok key ↦ elim (check_membership db ks (member_tag (id_string host) group) key w) [
      | ok member ↦
          if member
          then elim (update_keeper fs group (m.tag ∷ []) s) [
            | ok s' ↦ deliver auto m s'
            | err e ↦ err e
            | panic ↦ panic
          ]
          else ok s
      | err e ↦ err e
      | panic ↦ panic
    ]
    | err _ ↦ ok s
    | panic ↦ panic
  ]

  unfoldable pub content_put :
      Bool → Str → Str → World → Local fs.World Filter → Result (Local fs.World Filter)
  unfolding deliver group_put
  content_put auto k v w s = elim (decode v) [
    | ok m ↦
        if has_prefix k group_index_prefix
        then elim (get_elem? (key_list k) 1) [
          | none ↦ panic
          | some group ↦ group_put auto m group w s
        ]
        else deliver auto m s
    | err _ ↦ ok s
    | panic ↦ panic
  ]

  -- `PutHook`, for the key and the value that were put.
  unfoldable pub put_hook :
      Bool → Str → Str → World → Local fs.World Filter → Result (Local fs.World Filter)
  unfolding member_put content_put
  put_hook auto k v w s =
      if has_prefix k group_member_prefix
      then member_put k w s
      else if has_prefix k group_prefix
      then ok s
      else content_put auto k v w s

  -- `DeleteHook`
  unfoldable pub delete_hook : Str → Local fs.World Filter → Result (Local fs.World Filter)
  delete_hook k s = add_to_state fs (codes "removed " ++ key_name k) s
