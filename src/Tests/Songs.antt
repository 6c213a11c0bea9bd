-- ===== src/Tests/Songs.antt =====
-- A song, the store that has it, and the node that Alice runs.
use ipfs_lite.Prelude.{false, List, [], ◌∷◌, codes, Str, Dict}
use ipfs_lite.Repo.StateFile.{set_state}
use ipfs_lite.Replication.Types.{ContentMetatag}
use ipfs_lite.Replication.Hooks.{Local}
use ipfs_lite.Tests.Worlds.{map_files, list_bloom, whole_floats}
use ipfs_lite.Tests.Codec.{json_of, list, pair, number, boolean}
use ipfs_lite.Tests.Codecs.{group_metadata, content_metatag, link, state}

abbrev pub alice : Str
alice = codes "a"

abbrev pub bob : Str
bob = codes "b"

abbrev pub gang : Str
gang = codes "g"

abbrev pub song : ContentMetatag
song = record {
  tag = codes "s";
  size = 3;
  content_type = [];
  name = codes "s";
  hash = codes "h";
  timestamp = 7;
  owner = alice;
  is_encrypted = false;
  group = [];
  links = [];
}

abbrev pub song_key : Str
song_key = codes "/s"

abbrev pub song_bytes : Str
song_bytes = content_metatag.write song

-- The store after Alice has added the song.
abbrev pub with_song : Dict Str
with_song = (song_key, song_bytes) ∷ []

abbrev pub fresh_local : Local (Dict Str) (List Str)
fresh_local = record {
  root = codes "/r";
  state = codes "t" ∷ [];
  keeper = record { states = []; root = codes "/r" };
  files = [];
  queue = [];
}

-- The node after it has counted the song, in its own filter and in that of the group.
abbrev pub after_own : Local (Dict Str) (List Str)
after_own = record fresh_local {
  state = codes "s" ∷ codes "t" ∷ [];
  files = (set_state map_files (List Str) (codes "/r") (codes "s" ∷ codes "t" ∷ []) []).1;
}
