-- ===== src/Tests/Index.antt =====
-- The theorems on the tag index and the watcher at concrete calls.
use ipfs_lite.Prelude.{
  ℕ, ◌≡◌, refl, List, [], ◌∷◌, codes, Str, Dict, insert, lookup, str_eq, Error, In,
}
use ipfs_lite.Matrix.Content.{
  ContentMatrix, new_entry, new_content, content_add_provider, provide_entry, is_provider,
  content_download_started, content_download_finished, with_entry, start_entry, finish_entry,
}
use ipfs_lite.Repo.StateFile.{set_state}
use ipfs_lite.Replication.Types.{ContentMetatag}
use ipfs_lite.Replication.Manager.{send, find_tag, unfinished}
use ipfs_lite.Replication.Hooks.{add_to_state}
use ipfs_lite.Replication.Watcher.{Watched, watch, execute, add_providers, callback, count}
use ipfs_lite.Replication.Watcher.Counted.{
  Finished, Counts, failed_download_resent, download_counted,
}
use ipfs_lite.Tests.Worlds.{map_store, map_files, plain_keys, list_bloom, whole_floats}
use ipfs_lite.Tests.Codec.{json_of, list, pair, number, boolean}
use ipfs_lite.Tests.Codecs.{group_metadata, content_metatag, link, state}
use ipfs_lite.Tests.Songs.{alice, song, song_key, fresh_local, after_own}

-- A download of the song that was started at the second 5.
abbrev started : ContentMatrix ℕ
started = record new_entry { tag = song_key; download_started_at = 5 }

abbrev recorded : Dict (ContentMatrix ℕ)
recorded =
    (
      codes "h",
      record new_entry {
        tag = codes "/s";
        size = 3;
        download_started_at = 5;
        provided_by = alice ∷ [];
      },
    )
    ∷ []

-- The song under the tag that the store has it by.
abbrev tagged_song : ContentMetatag
tagged_song = record song { tag = song_key }

failed_download_resent_example : (fresh_local ≡ fresh_local) × In tagged_song (tagged_song ∷ [])
unfolding watch new_content add_providers content_add_provider provide_entry is_provider
    content_download_started with_entry start_entry execute find_tag unfinished send lookup insert
    str_eq
failed_download_resent_example =
    failed_download_resent map_files map_store plain_keys 5 9 (λ c. c) (alice ∷ []) tagged_song
      (Error.foreign 2) [] recorded fresh_local
      (record { local = fresh_local; contents = recorded })
      ((song_key, content_metatag.write tagged_song) ∷ []) (tagged_song ∷ []) refl refl refl refl
      refl

abbrev counted_here : Watched (Dict Str) (List Str) ℕ
counted_here = record {
  local = after_own;
  contents =
      (
        codes "h",
        record new_entry {
          tag = codes "s";
          size = 3;
          avg_speed = 3;
          download_started_at = 5;
          download_finished_at = 9;
          provided_by = alice ∷ [];
        },
      )
      ∷ [];
}

download_counted_example :
    Finished (codes "h") 9 counted_here.contents × Counts map_files [] (codes "s") after_own
unfolding watch new_content add_providers content_add_provider provide_entry is_provider
    content_download_started content_download_finished with_entry start_entry finish_entry execute
    callback count add_to_state set_state lookup insert str_eq
download_counted_example =
    download_counted map_files 5 9 (λ c. c) (alice ∷ []) song [] _ fresh_local counted_here refl
      refl refl
