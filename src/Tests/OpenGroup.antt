-- ===== src/Tests/OpenGroup.antt =====
-- The theorem on open groups at a concrete call.
use ipfs_lite.Prelude.{◌≡◌, refl, true, List, [], ◌∷◌, ok, codes, Str, Dict, insert, lookup, str_eq}
use ipfs_lite.Repo.StateKeeper.{
  State, StateKeeper, get_state, add_or_update_state, update_state, save_states, add_strings,
}
use ipfs_lite.Replication.Types.{GroupMetadata}
use ipfs_lite.Replication.Group.{
  make_group, create_group_id, tag_group, store_public_key, group_get_info,
}
use ipfs_lite.Replication.Hooks.{Local}
use ipfs_lite.Replication.OpenGroup.{create_open_group, join_own_group, create_open_group_lem}
use ipfs_lite.Tests.Worlds.{map_store, map_files, plain_keys, list_bloom}
use ipfs_lite.Tests.Codec.{json_of, list, pair, number, boolean}
use ipfs_lite.Tests.Codecs.{group_metadata, content_metatag, link, state}

abbrev alice : Str
alice = codes "a"

abbrev club : GroupMetadata
club = record {
  name = codes "g";
  owner_id = alice;
  owner_public_key = alice;
  group_id = codes "g+1";
  is_open = true;
}

abbrev before : Local (Dict Str) (List Str)
before = record {
  root = codes "/r";
  state = codes "t" ∷ [];
  keeper = record { states = []; root = codes "/r" };
  files = [];
  queue = [];
}

abbrev club_keeper : StateKeeper (List Str)
club_keeper = record {
  states = (codes "g+1", record { filter = []; membership = true }) ∷ [];
  root = codes "/r";
}

abbrev after : Local (Dict Str) (List Str)
after = record before { keeper = club_keeper; files = (save_states map_files club_keeper []).1 }

create_open_group_example :
    (st : State (List Str)) × (group_get_info map_store plain_keys alice
        (codes "g+1")
        alice
        (make_group map_store plain_keys true (codes "g") alice alice 49 []).1
      ≡ ok club)
    × (true ≡ true)
    × (get_state (codes "g+1") club_keeper ≡ ok st)
    × (st.membership ≡ true)
    × (after.state ≡ before.state)
unfolding create_open_group join_own_group add_or_update_state update_state save_states add_strings
    make_group create_group_id tag_group store_public_key lookup insert str_eq
create_open_group_example =
    create_open_group_lem map_files map_store plain_keys (codes "g") alice alice 49 [] _ before
      after club refl refl refl
