-- ===== src/Repo/Config.antt =====
-- The configuration of a node, internal/config/config.go.
pub mod Ports
use ipfs_lite.Prelude.{List, [], ◌∷◌, ◌++◌, codes, Str, str_eq, Result, ok, ◌>>=◌, if◌then◌else◌}

pub record Identity : Type 0 where
  pub peer_id : Str
  pub priv_key : Str

pub record Addresses : Type 0 where
  pub swarm : List Str

pub record Config : Type 0 where
  pub identity : Identity
  pub addresses : Addresses
  pub bootstrap : List Str
  pub swarm_port : Str

abbrev pub default_swarm_port : Str
default_swarm_port = codes "4501"

-- `addressesConfig`
unfoldable pub addresses_config : Str → Addresses
addresses_config port = record {
  swarm = (codes "/ip4/0.0.0.0/tcp/" ++ port) ∷ (codes "/ip6/::/tcp/" ++ port) ∷ [];
}

-- The key pair is the one that the generator has returned.
module _ {Priv Pub : Type 0} (marshal_private_key : Priv → Result Str)
    (id_from_public_key : Pub → Result Str) (base64 pretty : Str → Str) where
  -- `identityConfig`
  unfoldable pub identity_config : Result (Priv × Pub) → Result Identity
  identity_config generated = generated >>= λ k. marshal_private_key k.0 >>= λ b.
      id_from_public_key k.1 >>= λ id. ok (record { peer_id = pretty id; priv_key = base64 b })

  -- `NewConfig`
  unfoldable pub new_config : Result (Priv × Pub) → Str → Result Config
  new_config generated port = identity_config generated >>= λ identity.
      let port' = if str_eq port (codes "0") then default_swarm_port else port in
      ok (record {
        identity = identity;
        addresses = addresses_config port';
        bootstrap = [];
        swarm_port = port';
      })
