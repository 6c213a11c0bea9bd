-- ===== src/Repo/Config/Ports.antt =====
-- The addresses of a new configuration.
use mathlib.Core.Bool.{true≢false}
use ipfs_lite.Prelude.{
  inr, inl, ◌≡◌, refl, ◌≢◌, sym, ◌∙◌, arith, true, false, Str, codes, str_eq, str_eq_iff, Result,
  ok, err, panic, Bool-cases,
}
use ipfs_lite.Repo.Config.{
  Config, Identity, default_swarm_port, addresses_config, identity_config, new_config,
}

default_not_zero : default_swarm_port ≢ codes "0"
unfolding str_eq
default_not_zero e = cc ((str_eq_iff default_swarm_port (codes "0")).1 e)

module _ {Priv Pub : Type 0} (marshal_private_key : Priv → Result Str)
    (id_from_public_key : Pub → Result Str) (base64 pretty : Str → Str) where
  -- A new configuration has the identity of the generated key pair and listens on its own port,
  -- which is never 0: asking for port 0 gives what asking for the default port gives.
  pub new_config_lem :
      (generated : Result (Priv × Pub)) (port : Str) (conf : Config)
      → new_config marshal_private_key id_from_public_key base64 pretty generated port ≡ ok conf
      → (identity_config marshal_private_key id_from_public_key base64 pretty generated
          ≡ ok conf.identity)
        × (conf.addresses ≡ addresses_config conf.swarm_port)
        × (conf.swarm_port ≢ codes "0")
        × (new_config marshal_private_key id_from_public_key base64 pretty generated (codes "0")
            ≡ new_config marshal_private_key id_from_public_key base64 pretty generated
                default_swarm_port)
  unfolding new_config str_eq
  new_config_lem generated port conf h =
      go (identity_config marshal_private_key id_from_public_key base64 pretty generated) refl
    where
      go :
          (r : Result Identity)
          → identity_config marshal_private_key id_from_public_key base64 pretty generated ≡ r
          → (identity_config marshal_private_key id_from_public_key base64 pretty generated
              ≡ ok conf.identity)
            × (conf.addresses ≡ addresses_config conf.swarm_port)
            × (conf.swarm_port ≢ codes "0")
            × (new_config marshal_private_key id_from_public_key base64 pretty generated (codes "0")
                ≡ new_config marshal_private_key id_from_public_key base64 pretty generated
                    default_swarm_port)
      go (ok i) e = elim (Bool-cases (str_eq port (codes "0"))) [
        | inl zero_port ↦
            (ground arith, ground arith, λ z. default_not_zero (taken_default zero_port ∙ z), refl)
        | inr other ↦ (
          ground arith,
          ground arith,
          λ z. true≢false (sym ((str_eq_iff port (codes "0")).1 (taken other ∙ z)) ∙ other),
          refl,
        )
      ]
        where
          taken_default : str_eq port (codes "0") ≡ true → default_swarm_port ≡ conf.swarm_port
          taken_default z = ground arith

          taken : str_eq port (codes "0") ≡ false → port ≡ conf.swarm_port
          taken z = ground arith
      go (err x) e = absurd (ground arith)
      go panic e = absurd (ground arith)
