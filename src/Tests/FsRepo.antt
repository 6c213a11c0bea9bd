-- ===== src/Tests/FsRepo.antt =====
-- The theorems on the repository on disk at concrete calls.
use ipfs_lite.Prelude.{
  ℕ, ◌≡◌, refl, ◌≢◌, arith, Option, none, some, ℕ, Bool, false, List, [], ◌∷◌, ok, panic, codes,
  Str, Dict, Error, Result,
}
use ipfs_lite.Extern.Json.{Json}
use ipfs_lite.Matrix.Keeper.{empty_matrix}
use ipfs_lite.Repo.Config.{Config, addresses_config}
use ipfs_lite.Repo.FsRepo.{FsRepo, open_repo, lock_file}
use ipfs_lite.Repo.FsRepo.Lock.{is_ok, open_repo-locked}
use ipfs_lite.Tests.Worlds.{map_datastore, list_bloom, whole_floats}
use ipfs_lite.Tests.Disk.{locked_files, map_disk}
use ipfs_lite.Tests.Codec.{json_of, list, pair, number, boolean}
use ipfs_lite.Tests.Codecs.{state, config, node_matrix, content_matrix}

abbrev pub some_config : Config
some_config = record {
  identity = record { peer_id = codes "p"; priv_key = codes "k" };
  addresses = addresses_config (codes "4501");
  bootstrap = [];
  swarm_port = codes "4501";
}

-- A disk with a configuration, and with a state file that is no JSON, or none.
abbrev pub configured : Dict Str
configured = (codes "/r/config", config.write some_config) ∷ []

abbrev opened : Result (FsRepo (Dict Str) (List Str) ℕ) × (Bool × Dict Str)
opened = open_repo locked_files map_datastore map_disk (List Str) ℕ (codes "/r") (false, configured)

calm_lock : (p : Str) → (map_disk.lock p lock_file (false, configured)).0 ≢ panic
calm_lock p e = absurd (ground arith)

open_repo-locked_example : opened.1.0 ≡ is_ok opened.0
open_repo-locked_example =
    open_repo-locked locked_files map_datastore map_disk (List Str) ℕ (codes "/r")
      (false, configured) opened.1 opened.0 refl calm_lock refl

abbrev pub a_repo : FsRepo (Dict Str) (List Str) ℕ
a_repo = record {
  closed = false;
  path = codes "/r";
  config = some_config;
  store = [];
  state = [];
  m_keeper = record { node_matrix = empty_matrix; content_matrix = [] };
  state_keeper = record { states = []; root = codes "/r" };
}

abbrev stuck_repo : FsRepo (Dict Str) (List Str) ℕ
stuck_repo = record a_repo { store = (codes "x", codes "y") ∷ [] }

-- A serialisation that refuses an empty text.
abbrev strict_text : Json (List Str)
strict_text = json_of

abbrev strict_read : Str → List Str × Option Error
strict_read [] = ([], some (Error.foreign 6))
strict_read (c ∷ s) = strict_text.unmarshal (c ∷ s)

strict_read-write :
    (f : List Str) (b : Str) → strict_text.marshal f ≡ ok b → strict_read b ≡ (f, none)
strict_read-write f [] h = absurd (ground arith)
strict_read-write f (c ∷ s) h = strict_text.unmarshal-marshal f (c ∷ s) h

abbrev strict : Json (List Str)
strict = record {
  fresh = [];
  marshal = strict_text.marshal;
  unmarshal = strict_read;
  unmarshal-marshal = strict_read-write;
}

abbrev damaged : Dict Str
damaged = (codes "/r/state", []) ∷ configured
