-- ===== src/Replication/Group.antt =====
-- The groups, internal/replication/group_replication.go, over the replicated store.
pub mod Access
pub mod Create
pub mod Members
pub mod Content
pub mod Listing
use ipfs_lite.Prelude.{
  true, false, Bool, ◌||◌, List, [], ◌∷◌, ◌++◌, Option, none, some, Str, str_eq, Int64, Error,
  Result, ok, err, panic, split_slash, get_elem?, if◌then◌else◌,
}
use ipfs_lite.Prelude.Io.{Io, pure, lift, gets, ◌>>=◌, ◌>>◌}
use ipfs_lite.Extern.Crdt.{Crdt}
use ipfs_lite.Extern.Keys.{Keys}
use ipfs_lite.Extern.Json.{Json, decode}
use ipfs_lite.Replication.Types.{ContentMetatag, GroupMetadata}
use ipfs_lite.Replication.Tags.{
  group_prefix, group_member_prefix, group_index_prefix, join_slash, group_tag, member_tag,
  index_tag,
}

-- One round of the loop of `GroupGetAllGroups`, before the later rounds: an entry that holds another
-- key is passed over, and so is a group that is not found.
unfoldable pub include :
    Bool → Result (Option GroupMetadata) → Result (List GroupMetadata) → Result (List GroupMetadata)
include false group rest = rest
include true (ok none) rest = rest
include true (ok (some gm)) (ok rest) = ok (gm ∷ rest)
include true (ok (some gm)) (err e) = err e
include true (ok (some gm)) panic = panic
include true (err e) rest = err e
include true panic rest = panic

module _ (db : Crdt) (ks : Keys) ⦃gj : Json GroupMetadata⦄ ⦃mj : Json ContentMetatag⦄ where
  open db use {World, new_key, get, put, query}
  open ks use {PrivKey, PubKey, public, raw, base64, id_string, sum_sha256, format_int}

  -- `createGroupId`: the hash of the name and the time.
  unfoldable pub create_group_id : Str → Int64 → Result Str
  create_group_id name now = sum_sha256 (name ++ b'+' ∷ format_int now)

  -- `tagGroup`
  unfoldable pub tag_group : Str → GroupMetadata → Io World (Unit {0})
  tag_group tag meta = do b ← lift (gj.marshal meta); put (new_key tag) b

  -- `storePublicKey`
  unfoldable pub store_public_key : Str → PubKey → Io World (Unit {0})
  store_public_key tag key = do b ← lift (raw key); put (new_key tag) (base64 b)

  -- `Manager.Tag`
  unfoldable pub tag_content : Str → ContentMetatag → Io World (Unit {0})
  tag_content tag meta = do b ← lift (mj.marshal meta); put (new_key tag) b

  -- `CreateGroup`, and the part of `CreateOpenGroup` that works on the store.
  unfoldable pub make_group : Bool → Str → Str → PrivKey → Int64 → Io World GroupMetadata
  make_group is_open name owner_id owner_key now = do
    group_id ← lift (create_group_id name now)
    key ← lift (raw (public owner_key))
    let meta : GroupMetadata = record {
      name = name;
      owner_id = owner_id;
      owner_public_key = key;
      group_id = group_id;
      is_open = is_open;
    }
    tag_group (group_tag (id_string group_id)) meta
    store_public_key (member_tag (id_string owner_id) (id_string group_id)) (public owner_key)
    pure meta

  -- The check of `GroupAddMember`, `GroupGetInfo` and `GroupAddContent`: the group exists, it is
  -- open or the caller owns it, and the caller's key is the one that is stored for the member.
  unfoldable pub is_member : Str → Str → PrivKey → World → Result (Unit {0})
  is_member peer group key w = elim (raw (public key)) [
    | ok k ↦ elim (get (new_key (member_tag (id_string peer) (id_string group))) w) [
      | ok stored ↦ if str_eq (base64 k) stored then ok tt else err Error.not_a_member
      | err e ↦ err e
      | panic ↦ panic
    ]
    | err e ↦ err e
    | panic ↦ panic
  ]

  unfoldable pub group_meta : Str → World → Result GroupMetadata
  group_meta group w = elim (get (new_key (group_tag (id_string group))) w) [
    | ok b ↦ decode b
    | err e ↦ err e
    | panic ↦ panic
  ]

  unfoldable pub authorize : Str → Str → PrivKey → World → Result GroupMetadata
  authorize peer group key w = elim (group_meta group w) [
    | ok gm ↦
        if gm.is_open || str_eq gm.owner_id peer
        then elim (is_member peer group key w) [ ok _ ↦ ok gm | err e ↦ err e | panic ↦ panic ]
        else err Error.no_permission
    | err e ↦ err e
    | panic ↦ panic
  ]

  -- `GroupAddMember`
  unfoldable pub group_add_member : Str → Str → Str → PrivKey → PubKey → Io World (Unit {0})
  group_add_member peer new_peer group key member_key = do
    gets (authorize peer group key)
    store_public_key (member_tag (id_string new_peer) (id_string group)) member_key

  -- `GroupGetInfo`
  unfoldable pub group_get_info : Str → Str → PrivKey → World → Result GroupMetadata
  group_get_info = authorize

  -- `GroupAddContent`
  unfoldable pub group_add_content : Str → Str → PrivKey → ContentMetatag → Io World (Unit {0})
  group_add_content peer group key meta = do
    gets (authorize peer group key)
    tag_content (index_tag (id_string group) meta.tag) (record meta { group = id_string group })

  -- The loop that keeps the values that decode.
  unfoldable pub decode_all : List (Str × Str) → List ContentMetatag
  decode_all [] = []
  decode_all ((k, v) ∷ es) =
      let rest = decode_all es in elim (decode v) [ ok m ↦ m ∷ rest | err _ ↦ rest | panic ↦ rest ]

  -- `GroupGetAllContent`: it asks for the member's key only.
  unfoldable pub group_get_all_content : Str → Str → PrivKey → World → Result (List ContentMetatag)
  group_get_all_content peer group key w = elim (is_member peer group key w) [
    | ok _ ↦ elim (query (join_slash group_index_prefix (id_string group)) w) [
      | ok es ↦ ok (decode_all es)
      | err e ↦ err e
      | panic ↦ panic
    ]
    | err e ↦ err e
    | panic ↦ panic
  ]

  -- The metadata under the printed identifier of a group; `none` where the group is not stored or
  -- does not decode.
  unfoldable pub group_at : Str → World → Result (Option GroupMetadata)
  group_at group w = elim (get (new_key (join_slash group_prefix group)) w) [
    | ok v ↦ ok (elim (decode v) [ ok gm ↦ some gm | err _ ↦ none | panic ↦ none ])
    | err _ ↦ ok none
    | panic ↦ panic
  ]

  -- The group that a member key names: piece 3 of the key, a panic where there is none.
  unfoldable pub group_of_key : Str → World → Result (Option GroupMetadata)
  group_of_key key w = elim (get_elem? (split_slash key) 3) [
    | none ↦ panic
    | some group ↦ group_at group w
  ]

  unfoldable pub collect_groups : Str → List (Str × Str) → World → Result (List GroupMetadata)
  unfolding include
  collect_groups own [] w = ok []
  collect_groups own ((k, v) ∷ es) w =
      include (str_eq own v) (group_of_key k w) (collect_groups own es w)

  -- `GroupGetAllGroups`
  unfoldable pub group_get_all_groups : Str → PrivKey → World → Result (List GroupMetadata)
  group_get_all_groups owner key w = elim (raw (public key)) [
    | ok k ↦ elim (query (join_slash group_member_prefix (id_string owner)) w) [
      | ok es ↦ collect_groups (base64 k) es w
      | err e ↦ err e
      | panic ↦ panic
    ]
    | err e ↦ err e
    | panic ↦ panic
  ]
