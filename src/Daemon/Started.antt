-- ===== src/Daemon/Started.antt =====
-- A start makes the node of the daemon: online with the options asked for, or none at all.
use ipfs_lite.Prelude.{
  arith, ◌≡◌, refl, ap, ◌∙◌, ◌≢◌, Bool, Option, none, some, List, [], ◌∷◌, ◌++◌, Str, codes, length,
  length-append, if◌then◌else◌, Error, Result, ok, err, panic,
}
use ipfs_lite.Extern.Cipher.{Cipher}
use ipfs_lite.Repo.FsRepo.{get_config}
use ipfs_lite.Peer.Start.{
  Outcomes, Node, Options, default_options, with_auto_download, chosen, no_node, new_node,
  decoded_key,
}
use ipfs_lite.Peer.Start.Opened.{first_error, steps, Runs, new_node_lem}
use ipfs_lite.Daemon.{
  Common, sk_base, config_error, with_repo_config, swarm_key, with_swarm_key, start,
}

-- The options that `Start` gives the node.
abbrev pub started_options : Bool → Options
started_options auto_download = record default_options { auto_download = auto_download }

-- What decoding the swarm key says, where there is one.
abbrev pub key_error : (Str → Option Error) → Option Str → Option Error
key_error decode_psk none = none
key_error decode_psk (some sk) = decode_psk sk

abbrev pub start_steps :
    (Str → Option Error) → Option Str → Options → Outcomes → List (Option Error)
start_steps decode_psk sk opts o =
    o.config ∷ key_error decode_psk sk ∷ o.libp2p ∷ o.blockstore ∷ o.replication opts ∷ []

pub steps-with_swarm_key :
    (decode_psk : Str → Option Error) (sk : Option Str) (opts : Options) (o : Outcomes)
    → steps opts (with_swarm_key decode_psk sk o) ≡ start_steps decode_psk sk opts o
unfolding with_swarm_key decoded_key
steps-with_swarm_key decode_psk none opts o = refl
steps-with_swarm_key decode_psk (some sk) opts o = refl

-- The swarm key is absent exactly for a blank key; otherwise it is the header of two lines and then a
-- line of 64 digits, where the digits of an MD5 sum are 32.
pub swarm_key_lem :
    (c : Cipher) (key : Str)
    → length (c.md5_hex key) ≡ 32
    → (key ≡ [] → swarm_key c key ≡ none)
      × (key ≢ []
          → (digits : Str) × (swarm_key c key ≡ some (sk_base ++ (10 ∷ digits)))
            × (length digits ≡ 64))
unfolding swarm_key
swarm_key_lem c [] h = (λ e. refl, λ ne. absurd (ne refl))
swarm_key_lem c (b ∷ key) h = (
  λ e. absurd (ground (arith)),
  λ ne. (
    c.md5_hex (b ∷ key) ++ c.md5_hex (b ∷ key),
    refl,
    omega (arith, length-append (c.md5_hex (b ∷ key)) (c.md5_hex (b ∷ key)), h),
  ),
)

-- Start returns the first error of its steps, among them what decoding the swarm key says, which is
-- asked only where the key is not blank. After a success the daemon's node runs, with the options
-- that downloading was asked for in; after an error the daemon is as it was.
pub start_lem :
    {Store Filter F : Type 0} (c : Cipher) (decode_psk : Str → Option Error) (key : Str)
    (auto_download : Bool) (o : Outcomes) (comm : Common Store Filter F)
    → ((start c decode_psk key auto_download o comm).0
        ≡ first_error (
            start_steps decode_psk
              (swarm_key c key)
              (started_options auto_download)
              (with_repo_config comm o)))
      × ((start c decode_psk key auto_download o comm).0 ≡ ok tt
          → (n : Node) × ((start c decode_psk key auto_download o comm).1
              ≡ record comm { node = some n })
            × Runs (started_options auto_download) n)
      × ((e : Error)
          → (start c decode_psk key auto_download o comm).0 ≡ err e
          → (start c decode_psk key auto_download o comm).1 ≡ comm)
unfolding start chosen
start_lem {Store} {Filter} {F} c decode_psk key auto_download o comm =
    go (new_node (with_auto_download auto_download ∷ []) o' no_node).0 refl
  where
    o' : Outcomes
    o' = with_swarm_key decode_psk (swarm_key c key) (with_repo_config comm o)

    opts : Options
    opts = started_options auto_download

    ran : Result (Unit {0}) × Common Store Filter F
    ran = start c decode_psk key auto_download o comm

    first :
        (new_node (with_auto_download auto_download ∷ []) o' no_node).0
        ≡ first_error (start_steps decode_psk (swarm_key c key) opts (with_repo_config comm o))
    first =
        (new_node_lem (with_auto_download auto_download ∷ []) o').0
        ∙ ap first_error
            (steps-with_swarm_key decode_psk (swarm_key c key) opts (with_repo_config comm o))

    made : Node
    made = (new_node (with_auto_download auto_download ∷ []) o' no_node).1

    go :
        (r : Result (Unit {0}))
        → (new_node (with_auto_download auto_download ∷ []) o' no_node).0 ≡ r
        → (ran.0
            ≡ first_error (start_steps decode_psk (swarm_key c key) opts (with_repo_config comm o)))
          × (ran.0 ≡ ok tt → (n : Node) × (ran.1 ≡ record comm { node = some n }) × Runs opts n)
          × ((e : Error) → ran.0 ≡ err e → ran.1 ≡ comm)
    go (ok u) e =
        let well = (new_node_lem (with_auto_download auto_download ∷ []) o').1 e in
        (ground (arith, first), λ h. (made, ground arith, well), λ x h. absurd (ground arith))
    go (err x) e = (ground (arith, first), λ h. absurd (ground arith), λ y h. ground arith)
    go panic e = (ground (arith, first), λ h. absurd (ground arith), λ y h. ground arith)

first_error-closed :
    {Store Filter F : Type 0} (comm : Common Store Filter F) (later : List (Option Error))
    → first_error (config_error (get_config comm.repo) ∷ later)
      ≡ first_error ((if comm.repo.closed then some Error.repo_closed else none) ∷ later)
unfolding config_error get_config first_error
first_error-closed comm later = ground arith

-- Start returns the first error of its steps: a repository that is closed, decoding the swarm key, and making the host, the block store and the replication manager. Where the key is blank
-- nothing is decoded; otherwise it is the text of two header lines and of the key's MD5 digits, twice.
-- After a success the daemon's node runs, with the options that downloading was asked for in; after an
-- error the daemon is as it was.
pub start_keyed :
    {Store Filter F : Type 0} (c : Cipher) (decode_psk : Str → Option Error) (key : Str)
    (auto_download : Bool) (o : Outcomes) (comm : Common Store Filter F)
    → (key ≡ []
        → (start c decode_psk key auto_download o comm).0
          ≡ first_error (
              (if comm.repo.closed then some Error.repo_closed else none)
              ∷ none
              ∷ o.libp2p
              ∷ o.blockstore
              ∷ o.replication (started_options auto_download)
              ∷ []))
      × (key ≢ []
          → (start c decode_psk key auto_download o comm).0
            ≡ first_error (
                (if comm.repo.closed then some Error.repo_closed else none)
                ∷ decode_psk (
                    codes "/key/swarm/psk/1.0.0/"
                    ++ (10 ∷ (codes "/base16/" ++ (10 ∷ (c.md5_hex key ++ c.md5_hex key)))))
                ∷ o.libp2p
                ∷ o.blockstore
                ∷ o.replication (started_options auto_download)
                ∷ []))
      × ((start c decode_psk key auto_download o comm).0 ≡ ok tt
          → (n : Node) × ((start c decode_psk key auto_download o comm).1
              ≡ record comm { node = some n })
            × Runs (started_options auto_download) n)
      × ((e : Error)
          → (start c decode_psk key auto_download o comm).0 ≡ err e
          → (start c decode_psk key auto_download o comm).1 ≡ comm)
unfolding swarm_key
start_keyed c decode_psk [] auto_download o comm =
    let (first, well, bad) = start_lem c decode_psk [] auto_download o comm in
    (λ e. first ∙ first_error-closed comm _, λ ne. absurd (ne refl), well, bad)
start_keyed c decode_psk (b ∷ key) auto_download o comm =
    let (first, well, bad) = start_lem c decode_psk (b ∷ key) auto_download o comm in
    (λ e. absurd (ground arith), λ ne. first ∙ first_error-closed comm _, well, bad)
