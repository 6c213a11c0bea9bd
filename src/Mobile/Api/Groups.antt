-- ===== src/Mobile/Api/Groups.antt =====
-- The group functions of mobile/datahop.go: CreateGroup, CreateOpenGroup, AddMember, GetAllGroups and
-- GetGroupName.
use ipfs_lite.Prelude.{
  ◌≡◌, refl, arith, inl, inr, true, false, Option, none, some, List, map, Str, Dict, Int64, Error,
  Result, ok, err, panic, Bool-cases, if◌then◌else◌,
}
use ipfs_lite.Prelude.Io.{Io, pure, lift, ◌>>=◌}
use ipfs_lite.Extern.Bloom.{Bloom}
use ipfs_lite.Extern.Crdt.{Crdt}
use ipfs_lite.Extern.FileSystem.{FileSystem}
use ipfs_lite.Extern.Keys.{Keys}
use ipfs_lite.Extern.Json.{Json}
use ipfs_lite.Mobile.Api.Running.{Hop}
use ipfs_lite.Replication.Group.{make_group, group_add_member, group_get_info, group_get_all_groups}
use ipfs_lite.Replication.Group.Create.{get_info-make_group}
use ipfs_lite.Replication.OpenGroup.{create_open_group}
use ipfs_lite.Replication.Tags.{group_tag, member_tag}
use ipfs_lite.Replication.Types.{ContentMetatag, GroupMetadata}
use ipfs_lite.Repo.StateKeeper.{State}

-- `decode` is `peer.Decode`, `pub_key` is the node's peer store, `marshal` is proto.Marshal of a list
-- of strings.
module _ (fs : FileSystem) (db : Crdt) (ks : Keys) (Filter : Type 0) ⦃bl : Bloom Filter⦄
    ⦃sj : Json (Dict (State Filter))⦄ ⦃gj : Json GroupMetadata⦄ ⦃mj : Json ContentMetatag⦄
    (decode : Str → Result Str) (pub_key : Str → ks.PubKey) (marshal : List Str → Result Str)
    (host : Str) (key : ks.PrivKey) where
  abbrev pub GroupWorld : Type 0
  GroupWorld = Option (Hop fs.World Filter) × db.World

  -- A call of comm.Node on the replicated store, which panics before the node was started.
  unfoldable pub on_manager : {A : Type 0} → Hop fs.World Filter → Io db.World A → Io GroupWorld A
  on_manager h m (o, w) =
      if h.node_started then (let (r, w') = m w in (r, (some h, w'))) else (panic, (some h, w))

  -- `CreateGroup`
  unfoldable pub api_create_group : Str → Int64 → Io GroupWorld Str
  unfolding on_manager
  api_create_group name now (none, w) = (err Error.node_not_running, (none, w))
  api_create_group name now (some h, w) =
      on_manager h
        (make_group db ks false name host key now >>= λ gm. pure (ks.id_string gm.group_id))
        (some h, w)

  -- `CreateOpenGroup`
  unfoldable pub api_create_open_group : Str → Int64 → Io GroupWorld Str
  unfolding create_open_group
  api_create_open_group name now (none, w) = (err Error.node_not_running, (none, w))
  api_create_open_group name now (some h, w) =
      if h.node_started
      then (let (r, (w', local)) = create_open_group fs db ks name host key now (w, h.local) in
          let o : Option (Hop fs.World Filter) = some (record h { local = local }) in
          elim r [
            | ok gm ↦ (ok (ks.id_string gm.group_id), (o, w'))
            | err e ↦ (err e, (o, w'))
            | panic ↦ (panic, (o, w'))
          ])
      else (panic, (some h, w))

  -- `AddMember`
  unfoldable pub api_add_member : Str → Str → Io GroupWorld (Unit {0})
  unfolding on_manager
  api_add_member peer_id group_string (none, w) = (err Error.node_not_running, (none, w))
  api_add_member peer_id group_string (some h, w) =
      (do
        new_peer ← lift (decode peer_id)
        group ← lift (decode group_string)
        on_manager h (group_add_member db ks host new_peer group key (pub_key new_peer)))
        (some h, w)

  -- `GetAllGroups`
  unfoldable pub api_get_all_groups : GroupWorld → Result Str
  api_get_all_groups (none, w) = err Error.node_not_running
  api_get_all_groups (some h, w) =
      if h.node_started
      then elim (group_get_all_groups db ks host key w) [
        | ok groups ↦ marshal (map (λ (gm : GroupMetadata). ks.id_string gm.group_id) groups)
        | err e ↦ err e
        | panic ↦ panic
      ]
      else panic

  -- `GetGroupName`, which does not use its first argument.
  unfoldable pub api_get_group_name : Str → Str → GroupWorld → Result Str
  api_get_group_name peer_id group_string (none, w) = err Error.node_not_running
  api_get_group_name peer_id group_string (some h, w) = elim (decode group_string) [
    | ok group ↦
        if h.node_started
        then elim (group_get_info db ks host group key w) [
          | ok gm ↦ ok gm.name
          | err e ↦ err e
          | panic ↦ panic
        ]
        else panic
    | err e ↦ err e
    | panic ↦ panic
  ]

  -- When CreateGroup succeeds, GetGroupName with the identifier that it returned gives the name. An
  -- identifier that was printed decodes to itself, and the keys of the group and of its owner are
  -- taken to be clean paths.
  pub api_get_group_name-api_create_group :
      (name peer_id gid : Str) (now : Int64) (w w' : GroupWorld)
      → ((id : Str) → decode (ks.id_string id) ≡ ok id)
      → ((g : Str)
          → db.new_key (member_tag (ks.id_string host) g) ≡ member_tag (ks.id_string host) g)
      → ((g : Str) → db.new_key (group_tag g) ≡ group_tag g)
      → api_create_group name now w ≡ (ok gid, w')
      → api_get_group_name peer_id gid w' ≡ ok name
  unfolding api_create_group api_get_group_name on_manager
  api_get_group_name-api_create_group name peer_id gid now (none, w) w' dec cm cg h =
      absurd (ground arith)
  api_get_group_name-api_create_group name peer_id gid now (some d, w) (o, w') dec cm cg h =
      elim (Bool-cases d.node_started) [
        | inl on ↦ made (make_group db ks false name host key now w).0 refl on
        | inr off ↦ absurd (ground arith)
      ]
    where
      made :
          (r : Result GroupMetadata)
          → (make_group db ks false name host key now w).0 ≡ r
          → d.node_started ≡ true
          → api_get_group_name peer_id gid (o, w') ≡ ok name
      made (ok gm) e on =
          let (info, named, owned, kind) =
            get_info-make_group db ks false name host key now w w' gm (ground arith)
              (cm (ks.id_string gm.group_id)) (cg (ks.id_string gm.group_id)) in
          let back = dec gm.group_id in ground (arith, info, named, back)
      made (err x) e on = absurd (ground arith)
      made panic e on = absurd (ground arith)
