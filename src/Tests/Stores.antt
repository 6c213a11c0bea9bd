-- ===== src/Tests/Stores.antt =====
-- The theorems on the store over the node and on the mobile library at concrete calls.
use ipfs_lite.Prelude.{
  has_prefix, ◌≡◌, ◌≢◌, refl, true, false, List, [], ◌∷◌, Option, some, Str, Dict, lookup, insert,
  str_eq, Result, ok, codes, In,
}
use ipfs_lite.Peer.Adder.{other_tree}
use ipfs_lite.Peer.Delete.{delete_file}
use ipfs_lite.Peer.Files.{add_file, known_hash, lay_out}
use ipfs_lite.Replication.Group.{
  authorize, group_meta, is_member, tag_content, decode_all, group_add_content,
  group_get_all_content,
}
use ipfs_lite.Peer.Delete.Exactly.{RootOrLink}
use ipfs_lite.Peer.Dirs.{node_contents}
use ipfs_lite.Peer.Dirs.Stored.{added_then_deleted}
use ipfs_lite.Replication.Manager.{find_tag, delete_tag}
use ipfs_lite.Replication.Types.{ContentMetatag, Link}
use ipfs_lite.Store.Content.{Contents}
use ipfs_lite.Store as Store
use ipfs_lite.Store.{Info, info_of}
use ipfs_lite.Matrix.Keeper.{empty_matrix}
use ipfs_lite.Mobile.Discovery.{new_discovery_service, or_empty}
use ipfs_lite.Mobile.Api.{api_add, api_get}
use ipfs_lite.Mobile.Api.Running.{Hop, crdt_status, advertise}
use ipfs_lite.Mobile.Api.Groups.{api_create_group}
use ipfs_lite.Mobile.Api.RoundTrip.{api_get-api_add}
use ipfs_lite.Tests.Services.{marking}
use ipfs_lite.Store.Laws.{group_add_listed}
use ipfs_lite.Tests.Group.{alice, gang, after_founding}
use ipfs_lite.Tests.Songs.{fresh_local}
use ipfs_lite.Security.{encrypt_content, block_or_nil}
use ipfs_lite.Tests.Blocks.{block_dag}
use ipfs_lite.Tests.Trees.{path_files}
use ipfs_lite.Tests.Codec.{json_of, list, pair, number, boolean}
use ipfs_lite.Tests.Codecs.{group_metadata, content_metatag, link, state}
use ipfs_lite.Tests.Worlds.{map_files, map_store, plain_keys, list_bloom}

abbrev pub contents : Contents
contents = node_contents block_dag path_files (λ dir w. ok other_tree) 1 (λ s. ok s)

abbrev pub song : Info
song = record {
  tag = codes "song";
  content_type = codes "a";
  name = codes "song";
  is_encrypted = false;
  size = 2;
}

abbrev pub added : Result Str × (Dict Str × Dict Str)
added = Store.add map_store plain_keys contents alice alice (codes "la") song 7 ([], [])

abbrev deleted : Result (Unit {0}) × (Dict Str × Dict Str)
deleted = Store.delete map_store contents song.tag added.1

added_then_deleted_example :
    (Store.get map_store contents song.tag added.1 ≡ ok (codes "la", song))
    × (Store.get map_store contents song.tag deleted.1 ≢ ok (codes "la", song))
    × ((meta : ContentMetatag) × (links : List Link) × (find_tag map_store song.tag added.1.1
          ≡ ok meta)
        × (block_dag.get_links meta.hash added.1.0 ≡ ok links)
        × ((j : Str)
            → block_dag.is_inline (block_dag.block_of j) ≡ false
            → RootOrLink block_dag meta.hash links j
            → block_dag.has_block j deleted.1.0 ≡ ok false)
        × ((j : Str)
            → (RootOrLink block_dag meta.hash links j → ⊥)
            → block_dag.has_block j deleted.1.0 ≡ block_dag.has_block j added.1.0))
unfolding Store.add Store.delete add_file known_hash lay_out str_eq tag_content find_tag lookup
    insert delete_file delete_tag
added_then_deleted_example =
    added_then_deleted map_store plain_keys block_dag path_files (λ dir w. ok other_tree) 1
      (λ s. ok s) alice alice (codes "la") song 7 ([], []) added.1 deleted.1 (codes "la")
      (codes "la", song) refl refl

abbrev device : Hop (Dict Str) (List Str)
device = record {
  node_started = true;
  discovery = new_discovery_service (codes "me") 1 2 [] empty_matrix;
  local = fresh_local;
}

-- The text of the filter of the device.
abbrev filter_text : List Str → Result Str
filter_text f = ok (codes "filter")

abbrev after_add : Result (Unit {0}) × (Option (Hop (Dict Str) (List Str)) × (Dict Str × Dict Str))
after_add =
    api_add map_store plain_keys contents marking alice alice (λ b. codes "a") filter_text (λ l. l)
      (codes "song") (codes "la") (codes "pw") 7 (some device, ([], []))

api_get-api_add_example :
    (h : Hop (Dict Str) (List Str)) × (bf : Str) × (api_get map_store plain_keys contents marking
        alice alice
        (λ b. codes "a")
        filter_text
        (λ l. l)
        (codes "song")
        (codes "pw")
        after_add.1
      ≡ ok (codes "la"))
    × (after_add.1.0 ≡ some h)
    × (filter_text h.local.state ≡ ok bf)
    × (or_empty (lookup crdt_status h.discovery.advertising_info) ≡ bf)
unfolding api_add str_eq encrypt_content block_or_nil Store.add add_file known_hash lay_out
    tag_content advertise
api_get-api_add_example =
    api_get-api_add map_store plain_keys contents marking alice alice (λ b. codes "a") filter_text
      (λ l. l) (codes "song") (codes "la") (codes "pw") 7 (some device, ([], [])) after_add.1 refl

abbrev gang_added : Result Str × (Dict Str × Dict Str)
gang_added =
    Store.group_add map_store plain_keys contents alice alice (codes "la") song gang 7
      ([], after_founding true)

abbrev song_in_gang : ContentMetatag
song_in_gang = Store.meta_of song (codes "la") 7 alice gang

group_add_listed_example :
    (meta : ContentMetatag) × In meta (song_in_gang ∷ [])
    × (info_of meta ≡ song)
    × (meta.owner ≡ alice)
    × (meta.group ≡ gang)
    × (contents.get_file meta.hash gang_added.1.0 ≡ ok (codes "la"))
unfolding Store.group_add add_file known_hash lay_out str_eq group_add_content authorize group_meta
    lookup is_member tag_content group_get_all_content insert decode_all has_prefix
group_add_listed_example =
    group_add_listed map_store plain_keys contents alice alice (codes "la") gang alice gang alice
      song 7 ([], after_founding true) gang_added.1 (codes "la") (song_in_gang ∷ []) refl refl refl
      refl refl

abbrev band_world : Option (Hop (Dict Str) (List Str)) × Dict Str
band_world = (some device, [])

abbrev band_made : Result Str × (Option (Hop (Dict Str) (List Str)) × Dict Str)
band_made =
    api_create_group map_files map_store plain_keys (List Str) (λ s. ok s) (λ i. i) (λ l. ok [])
      alice alice (codes "band") 7 band_world
