-- ===== src/Extern/KeyParts.antt =====
-- The parts of a go-datastore `Key`.
use ipfs_lite.Prelude.{◌≡◌, List, ◌∷◌, Str, split_slash}

pub record KeyParts : Type 0 where
  -- `Key.List`: the pieces between the slashes
  pub key_list : Str → List Str
  -- `Key.Name`: the last piece, without its type
  pub key_name : Str → Str
  pub key_list-rooted : (s : Str) → key_list (b'/' ∷ s) ≡ split_slash s
