-- ===== src/Tests/Group.antt =====
-- The theorems on the groups at concrete calls.
use ipfs_lite.Prelude.{
  ◌++◌, split_rest, split_head, str_eq_iff, has_prefix, NoSlash, ◌≡◌, refl, ◌≢◌, ◌↔◌, ◌⊎◌, Bool,
  true, false, [], ◌∷◌, ok, err, codes, Str, Dict, insert, lookup, str_eq, Error, In, ◌++◌,
  split_slash,
}
use ipfs_lite.Extern.Json.{decode}
use ipfs_lite.Replication.Types.{ContentMetatag, GroupMetadata}
use ipfs_lite.Replication.Tags.{group_tag, member_tag}
use ipfs_lite.Replication.Group.{
  include, group_at, group_of_key, collect_groups, tag_content, tag_group, store_public_key,
  create_group_id, make_group, is_member, group_meta, authorize, group_add_member, group_get_info,
  group_add_content, decode_all, group_get_all_content, group_get_all_groups,
}
use ipfs_lite.Replication.Group.Access.{authorize_iff, closed_group_refuses}
use ipfs_lite.Replication.Group.Create.{get_info-make_group}
use ipfs_lite.Replication.Group.Members.{added_member_acts}
use ipfs_lite.Replication.Group.Content.{added_content_listed}
use ipfs_lite.Replication.Group.Listing.{member_group_listed}
use ipfs_lite.Tests.Worlds.{map_store, plain_keys}
use ipfs_lite.Tests.Codec.{json_of, list, pair, number, boolean}
use ipfs_lite.Tests.Codecs.{group_metadata, content_metatag, link}

abbrev pub alice : Str
alice = codes "a"

abbrev bob : Str
bob = codes "b"

abbrev pub gang : Str
gang = codes "g+1"

abbrev pub founded : Bool → GroupMetadata
founded is_open = record {
  name = codes "g";
  owner_id = alice;
  owner_public_key = alice;
  group_id = gang;
  is_open = is_open;
}

-- The store after Alice has made a group.
abbrev pub after_founding : Bool → Dict Str
after_founding is_open =
    (member_tag alice gang, alice) ∷ (group_tag gang, group_metadata.write (founded is_open)) ∷ []

abbrev song : ContentMetatag
song = record {
  tag = codes "s";
  size = 3;
  content_type = [];
  name = codes "s";
  hash = codes "h";
  timestamp = 7;
  owner = alice;
  is_encrypted = false;
  group = [];
  links = [];
}

alice_plain : NoSlash alice
alice_plain = ((λ e. cc), tt)

gang_plain : NoSlash gang
gang_plain = ((λ e. cc), ((λ e. cc), ((λ e. cc), tt)))

authorize_iff_example :
    (authorize map_store plain_keys alice gang alice (after_founding false) ≡ ok (founded false))
    ↔ (((b : Str) × (map_store.get (codes "/groups" ++ (b'/' ∷ gang)) (after_founding false) ≡ ok b)
          × (decode b ≡ ok (founded false)))
        × ((false ≡ true) ⊎ (alice ≡ alice))
        × ((k : Str) × (plain_keys.raw alice ≡ ok k)
            × (map_store.get
                  (codes "/group-member" ++ (b'/' ∷ (alice ++ (b'/' ∷ gang))))
                  (after_founding false)
                ≡ ok k)))
authorize_iff_example =
    authorize_iff map_store plain_keys alice gang alice (after_founding false) (founded false)

-- Bob was added by Alice to her closed group.
abbrev with_bob : Bool → Dict Str
with_bob is_open = (member_tag bob gang, bob) ∷ after_founding is_open

bob_not_alice : alice ≢ bob
unfolding str_eq
bob_not_alice e = cc ((str_eq_iff alice bob).1 e)

closed_group_refuses_example :
    (group_get_info map_store plain_keys bob gang bob (with_bob false) ≡ err Error.no_permission)
    × (group_add_member map_store plain_keys bob alice gang bob alice (with_bob false)
        ≡ (err Error.no_permission, with_bob false))
    × (group_add_content map_store plain_keys bob gang bob song (with_bob false)
        ≡ (err Error.no_permission, with_bob false))
    × (group_get_all_content map_store plain_keys bob gang bob (with_bob false)
        ≡ ok (decode_all map_store plain_keys []))
unfolding group_meta is_member lookup str_eq has_prefix
closed_group_refuses_example =
    closed_group_refuses map_store plain_keys bob alice gang bob alice song (founded false)
      (with_bob false) [] refl refl bob_not_alice refl refl

get_info-make_group_example :
    (group_get_info map_store plain_keys alice gang alice
        (make_group map_store plain_keys true (codes "g") alice alice 49 []).1
      ≡ ok (founded true))
    × (codes "g" ≡ codes "g")
    × (alice ≡ alice)
    × (true ≡ true)
unfolding make_group create_group_id tag_group store_public_key
get_info-make_group_example =
    get_info-make_group map_store plain_keys true (codes "g") alice alice 49 [] _ (founded true)
      refl refl refl

added_member_acts_example :
    (authorize map_store plain_keys alice gang alice (after_founding true) ≡ ok (founded true))
    × (is_member map_store plain_keys bob gang bob
          (group_add_member map_store plain_keys alice bob gang alice bob (after_founding true)).1
        ≡ ok tt)
    × (authorize map_store plain_keys bob gang bob
          (group_add_member map_store plain_keys alice bob gang alice bob (after_founding true)).1
        ≡ ok (founded true))
unfolding group_add_member authorize group_meta is_member store_public_key insert lookup str_eq
added_member_acts_example =
    added_member_acts map_store plain_keys alice bob gang alice bob (after_founding true) _ _
      (founded true) refl refl refl refl refl refl

-- The store after Alice has added the song.
abbrev after_song : Dict Str
after_song = (group_add_content map_store plain_keys alice gang alice song (after_founding true)).1

added_content_listed_example :
    In (record song { group = gang }) (record song { group = gang } ∷ [])
    × (is_member map_store plain_keys alice gang alice after_song ≡ ok tt)
unfolding group_add_content authorize group_meta is_member tag_content group_get_all_content
    decode_all insert lookup str_eq has_prefix
added_content_listed_example =
    added_content_listed map_store plain_keys alice gang alice alice alice song
      (after_founding true) after_song (record song { group = gang } ∷ []) refl refl refl refl

member_group_listed_example : In (founded true) (founded true ∷ [])
unfolding group_meta is_member group_get_all_groups collect_groups group_of_key group_at include
    lookup str_eq has_prefix split_slash split_head split_rest
member_group_listed_example =
    member_group_listed map_store plain_keys alice gang alice (founded true) (after_founding true)
      (founded true ∷ []) alice_plain gang_plain refl refl refl refl
