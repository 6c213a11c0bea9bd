-- ===== src/Replication/OpenGroup.antt =====
-- `CreateOpenGroup`, internal/replication/group_replication.go: the group in the replicated store,
-- and its state in the node's own group states.
use ipfs_lite.Prelude.{
  ◌≡◌, refl, arith, true, [], Str, Dict, lookup, lookup-insert_self, Int64, Result, ok, err, panic,
}
use ipfs_lite.Prelude.Io.{Io}
use ipfs_lite.Extern.Bloom.{Bloom}
use ipfs_lite.Extern.Crdt.{Crdt}
use ipfs_lite.Extern.FileSystem.{FileSystem}
use ipfs_lite.Extern.Keys.{Keys}
use ipfs_lite.Extern.Json.{Json}
use ipfs_lite.Repo.StateKeeper.{
  State, get_state, add_or_update_state, save_states, update_state, add_strings, filter_of,
}
use ipfs_lite.Replication.Types.{ContentMetatag, GroupMetadata}
use ipfs_lite.Replication.Tags.{group_tag, member_tag}
use ipfs_lite.Replication.Group.{make_group, group_get_info}
use ipfs_lite.Replication.Group.Create.{get_info-make_group}
use ipfs_lite.Replication.Hooks.{Local}

module _ (fs : FileSystem) (db : Crdt) (ks : Keys) {Filter : Type 0} ⦃bl : Bloom Filter⦄
    ⦃sj : Json (Dict (State Filter))⦄ ⦃gj : Json GroupMetadata⦄ ⦃mj : Json ContentMetatag⦄ where
  open ks use {PrivKey, id_string}

  -- The call of the state keeper at the end: what it saves stays, and its error is returned.
  unfoldable pub join_own_group :
      GroupMetadata
      → db.World × Local fs.World Filter
      → Result GroupMetadata × (db.World × Local fs.World Filter)
  join_own_group meta (w, s) =
      let (keeper', saved, files') =
        add_or_update_state fs (id_string meta.group_id) true [] s.keeper s.files in
      (
        elim saved [ ok _ ↦ ok meta | err e ↦ err e | panic ↦ panic ],
        (w, record s { keeper = keeper'; files = files' }),
      )

  -- `CreateOpenGroup`
  unfoldable pub create_open_group :
      Str → Str → PrivKey → Int64 → Io (db.World × Local fs.World Filter) GroupMetadata
  unfolding join_own_group
  create_open_group name owner key now (w, s) =
      let (made, w') = make_group db ks true name owner key now w in
      elim made [
        | ok meta ↦ join_own_group meta (w', s)
        | err e ↦ (err e, (w', s))
        | panic ↦ (panic, (w', s))
      ]

  join_own_group_lem :
      (meta meta' : GroupMetadata) (w w' : db.World) (s s' : Local fs.World Filter)
      → join_own_group meta (w, s) ≡ (ok meta', (w', s'))
      → (meta ≡ meta')
        × (w ≡ w')
        × (s'.keeper ≡ update_state (id_string meta.group_id) true [] s.keeper)
        × (s'.state ≡ s.state)
  unfolding join_own_group add_or_update_state
  join_own_group_lem meta meta' w w' s s' h =
      go (save_states fs (update_state (id_string meta.group_id) true [] s.keeper) s.files).0 refl
    where
      go :
          (r : Result (Unit {0}))
          → (save_states fs (update_state (id_string meta.group_id) true [] s.keeper) s.files).0 ≡ r
          → (meta ≡ meta')
            × (w ≡ w')
            × (s'.keeper ≡ update_state (id_string meta.group_id) true [] s.keeper)
            × (s'.state ≡ s.state)
      go (ok u) e = (ground arith, ground arith, ground arith, ground arith)
      go (err x) e = absurd (ground arith)
      go panic e = absurd (ground arith)

  -- When creating an open group succeeds, its owner finds it as an open group with the owner's own
  -- key, and the node's group states have the node as a member of it; the node's own filter is as
  -- before. The keys of the group and of the owner are taken to be clean paths.
  pub create_open_group_lem :
      (name owner : Str) (key : PrivKey) (now : Int64) (w w' : db.World)
      (s s' : Local fs.World Filter) (meta : GroupMetadata)
      → create_open_group name owner key now (w, s) ≡ (ok meta, (w', s'))
      → db.new_key (member_tag (id_string owner) (id_string meta.group_id))
        ≡ member_tag (id_string owner) (id_string meta.group_id)
      → db.new_key (group_tag (id_string meta.group_id)) ≡ group_tag (id_string meta.group_id)
      → (st : State Filter) × (group_get_info db ks owner meta.group_id key w' ≡ ok meta)
        × (meta.is_open ≡ true)
        × (get_state (id_string meta.group_id) s'.keeper ≡ ok st)
        × (st.membership ≡ true)
        × (s'.state ≡ s.state)
  unfolding create_open_group get_state update_state
  create_open_group_lem name owner key now w w' s s' meta h cm cg =
      go (make_group db ks true name owner key now w).0 refl
    where
      go :
          (r : Result GroupMetadata)
          → (make_group db ks true name owner key now w).0 ≡ r
          → (st : State Filter) × (group_get_info db ks owner meta.group_id key w' ≡ ok meta)
            × (meta.is_open ≡ true)
            × (get_state (id_string meta.group_id) s'.keeper ≡ ok st)
            × (st.membership ≡ true)
            × (s'.state ≡ s.state)
      go (ok meta1) e =
          let w1 = (make_group db ks true name owner key now w).1 in
          let (em, ew, ek, es) = join_own_group_lem meta1 meta w1 w' s s' (ground arith) in
          let st : State Filter = record {
            filter = add_strings [] (filter_of (lookup (id_string meta.group_id) s.keeper.states));
            membership = true;
          } in
          let (info, named, owned, opened) =
            get_info-make_group db ks true name owner key now w w' meta (ground arith) cm cg in
          let stored = lookup-insert_self (id_string meta.group_id) st s.keeper.states in
          (st, info, opened, ground (arith, stored, ek, em), refl, es)
      go (err x) e = absurd (ground arith)
      go panic e = absurd (ground arith)
