-- ===== src/Tests/Hooks.antt =====
-- The theorems on the hooks at concrete calls.
use ipfs_lite.Prelude.{
  split_slash, ◌≡◌, refl, ◌≢◌, true, List, [], ◌∷◌, ok, codes, Str, Dict, insert, lookup, str_eq,
  str_eq_iff, All, NoSlash, has_prefix, split_head, split_rest, split_slash,
}
use ipfs_lite.Repo.StateKeeper.{
  StateKeeper, add_or_update_state, update_state, save_states, add_strings,
}
use ipfs_lite.Repo.StateKeeper.Update.{Knows}
use ipfs_lite.Replication.Types.{ContentMetatag}
use ipfs_lite.Replication.Tags.{member_tag, index_tag}
use ipfs_lite.Replication.Group.{decode_all}
use ipfs_lite.Replication.Hooks.{
  get_content_metadata, update_keeper, joined, check_membership, member_put, group_put, deliver,
  content_put, Local, put_hook,
}
use ipfs_lite.Replication.Hooks.Groups.{group_content_known, outsider_ignores, joined_group_known}
use ipfs_lite.Tests.Worlds.{map_store, map_files, plain_keys, plain_parts, list_bloom, whole_floats}
use ipfs_lite.Tests.Codec.{json_of, list, pair, number, boolean}
use ipfs_lite.Tests.Codecs.{group_metadata, content_metatag, link, state}
use ipfs_lite.Tests.Songs.{alice, bob, gang, song, song_bytes, fresh_local}

bob_not_alice : bob ≢ alice
unfolding str_eq
bob_not_alice e = cc ((str_eq_iff bob alice).1 e)

-- The store of a gang that Alice is a member of, with the song.
abbrev gang_store : Dict Str
gang_store = (index_tag gang (codes "s"), song_bytes) ∷ (member_tag alice gang, alice) ∷ []

gang_plain : NoSlash gang
gang_plain = ((λ e. cc), tt)

alice_plain : NoSlash alice
alice_plain = ((λ e. cc), tt)

bob_plain : NoSlash bob
bob_plain = ((λ e. cc), tt)

abbrev counted_keeper : StateKeeper (List Str)
counted_keeper = record {
  states = (gang, record { filter = codes "s" ∷ []; membership = true }) ∷ [];
  root = codes "/r";
}

abbrev after_joining : Local (Dict Str) (List Str)
after_joining = record fresh_local {
  keeper = counted_keeper;
  files = (save_states map_files counted_keeper []).1;
}

abbrev bobs_song : ContentMetatag
bobs_song = record song { owner = bob }

abbrev after_group_song : Local (Dict Str) (List Str)
after_group_song = record after_joining { queue = bobs_song ∷ [] }

group_content_known_example : Knows gang (codes "s") counted_keeper
unfolding put_hook content_put group_put check_membership update_keeper add_or_update_state
    update_state save_states add_strings deliver has_prefix lookup insert str_eq split_slash
    split_head split_rest
group_content_known_example =
    group_content_known map_files map_store plain_keys plain_parts alice alice true gang (codes "s")
      (content_metatag.write bobs_song) alice bobs_song gang_store fresh_local after_group_song
      gang_plain refl refl refl refl

outsider_ignores_example :
    put_hook map_files map_store plain_keys plain_parts bob bob true
      (index_tag gang (codes "s"))
      song_bytes
      gang_store
      fresh_local
    ≡ ok fresh_local
unfolding lookup str_eq
outsider_ignores_example =
    outsider_ignores map_files map_store plain_keys plain_parts bob bob true gang (codes "s")
      song_bytes bob song gang_store fresh_local gang_plain refl refl (λ e. cc) (λ e. cc)

joined_group_known_example :
    All
      (λ m. Knows gang m.tag counted_keeper)
      (decode_all map_store plain_keys ((index_tag gang (codes "s"), song_bytes) ∷ []))
    × (after_joining.state ≡ codes "t" ∷ [])
    × (after_joining.queue ≡ [])
    × (put_hook map_files map_store plain_keys plain_parts alice alice true
          (member_tag bob gang)
          bob
          gang_store
          fresh_local
        ≡ ok fresh_local)
unfolding put_hook member_put joined get_content_metadata decode_all update_keeper
    add_or_update_state update_state save_states add_strings has_prefix lookup insert str_eq
    split_slash split_head split_rest
joined_group_known_example =
    joined_group_known map_files map_store plain_keys plain_parts alice alice true bob gang bob
      ((index_tag gang (codes "s"), song_bytes) ∷ []) gang_store fresh_local after_joining
      alice_plain bob_plain gang_plain refl bob_not_alice refl
