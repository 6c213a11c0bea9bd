-- ===== src/Cli/Info/Hidden.antt =====
-- What the command info prints: all but the private key and the loopback addresses.
use mathlib.Core.Path.{subst}
use ipfs_lite.Prelude.{
  arith, ◌≡◌, refl, sym, ap, ◌∙◌, ◌↔◌, inl, inr, false, none, some, List, [], ◌∷◌, ◌++◌, map, codes,
  Str, has_prefix, Int64, Result, ok, err, panic, In, ok-bind, Bool-cases,
}
use ipfs_lite.Extern.Host.{Host}
use ipfs_lite.Extern.Json.{Json}
use ipfs_lite.Cli.Add.Input.{NodeState}
use ipfs_lite.Cli.Info.{NodeInfo, node_info, run_info}
use ipfs_lite.Cli.Out.{Format, print}
use ipfs_lite.Repo.Config.{Config}
use ipfs_lite.Store.Node.{peers, addr_info, own_addresses}
use ipfs_lite.Peer.Network as Network

-- The addresses that the host listens on, or those that it has where it cannot say.
abbrev pub host_addresses : Result (List Str) → List Str → List Str
host_addresses (ok listening) addrs = listening
host_addresses (err _) addrs = addrs
host_addresses panic addrs = addrs

-- An address of the list that is no loopback, with the ID after it.
abbrev pub Reachable : List Str → Str → Str → Type 0
Reachable addrs id a =
    (v : Str) × In v addrs
    × (has_prefix v (codes "/ip4/127") ≡ false)
    × (a ≡ v ++ (codes "/p2p/" ++ id))

-- The part of the printed record that is about the node, before the start and after it.
abbrev pub Describes :
    {Filter : Type 0}
    → (hs : Host) → NodeState
    → List Str
    → Result Int64
    → hs.World
    → NodeInfo Filter
    → Type 0
Describes hs none addrs usage w inf =
    (inf.is_daemon_running ≡ false) × (inf.peers ≡ []) × (inf.disk_usage ≡ 0) × (inf.addresses ≡ [])
Describes hs (some online) addrs usage w inf =
    (inf.is_daemon_running ≡ online)
    × (inf.peers ≡ map hs.id_string (hs.peers w))
    × (usage ≡ ok inf.disk_usage)
    × ((a : Str) → In a inf.addresses ↔ Reachable addrs (hs.id_string hs.self) a)

-- What is printed of a value in a format: its JSON text, indented or not, or the value itself.
abbrev pub Shows :
    {A : Type 0} → ⦃j : Json A⦄ → (Str → Result Str) → (A → Str) → A → Format → Str → Type 0
Shows ⦃j⦄ indent plain x Format.pretty_json printed =
    (b p : Str) × (j.marshal x ≡ ok b) × (indent b ≡ ok p) × (printed ≡ p ++ (10 ∷ []))
Shows ⦃j⦄ indent plain x Format.json printed =
    (b : Str) × (j.marshal x ≡ ok b) × (printed ≡ b ++ (10 ∷ []))
Shows indent plain x Format.no_style printed = printed ≡ plain x ++ (10 ∷ [])

print-Shows :
    {A : Type 0} ⦃j : Json A⦄ (indent : Str → Result Str) (plain : A → Str) (x : A)
    (format : Format) (printed : Str)
    → print indent plain x format ≡ ok printed
    → Shows indent plain x format printed
unfolding print
print-Shows ⦃j⦄ indent plain x Format.pretty_json printed h =
    let (b, e, h1) = ok-bind (j.marshal x) _ h in
    let (p, e', h2) = ok-bind (indent b) _ h1 in (b, p, e, e', ground arith)
print-Shows ⦃j⦄ indent plain x Format.json printed h =
    let (b, e, h1) = ok-bind (j.marshal x) _ h in (b, e, ground arith)
print-Shows indent plain x Format.no_style printed h = ground arith

own_addresses_iff :
    (id_string : Str → Str) (id : Str) (addrs : List Str) (a : Str)
    → In a (own_addresses id_string id addrs) ↔ Reachable addrs (id_string id) a
unfolding own_addresses
own_addresses_iff id_string id [] a = (λ i. absurd i, λ r. absurd r.1)
own_addresses_iff id_string id (v ∷ addrs) a =
    let (to, back) = own_addresses_iff id_string id addrs a in
    elim (Bool-cases (has_prefix v (codes "/ip4/127"))) [
      | inl loop ↦
          let same : own_addresses id_string id (v ∷ addrs) ≡ own_addresses id_string id addrs =
            ground (arith, loop) in
          (
            λ i. let (u, m, far, e) = to (subst (In a) same i) in (u, inr m, far, e),
            λ (u, m, far, e). elim m [
              | inl here ↦ absurd (ground (arith, loop, here, far))
              | inr there ↦ subst (In a) (sym same) (back (u, there, far, e))
            ],
          )
      | inr open_ ↦
          let same : own_addresses id_string id (v ∷ addrs)
              ≡ (v ++ (codes "/p2p/" ++ id_string id)) ∷ own_addresses id_string id addrs =
            ground (arith, open_) in
          (
            λ i. elim (subst (In a) same i) [
              | inl e ↦ (v, inl refl, open_, e)
              | inr later ↦ let (u, m, far, e) = to later in (u, inr m, far, e)
            ],
            λ (u, m, far, e). subst (In a) (sym same) (elim m [
              | inl here ↦ inl (e ∙ ap (λ x. x ++ (codes "/p2p/" ++ id_string id)) here)
              | inr there ↦ inr (back (u, there, far, e))
            ]),
          )
    ]

addr_info_lem :
    (hs : Host) (listening : Result (List Str)) (addrs : List Str)
    → addr_info hs listening addrs ≡ record { id = hs.self; addrs = host_addresses listening addrs }
unfolding addr_info
addr_info_lem hs (ok l) addrs = refl
addr_info_lem hs (err e) addrs = refl
addr_info_lem hs panic addrs = refl

module _ (hs : Host) {Filter : Type 0} ⦃j : Json (NodeInfo Filter)⦄ (indent : Str → Result Str)
    (plain : NodeInfo Filter → Str) where
  node_info_lem :
      (comm : NodeState) (listening : Result (List Str)) (addrs : List Str) (usage : Result Int64)
      (config : Result Config) (filter : Filter) (w : hs.World) (inf : NodeInfo Filter)
      → node_info hs comm listening addrs usage config filter w ≡ ok inf
      → (cfg : Config) × (config ≡ ok cfg)
        × (inf.config
            ≡ record cfg { identity = record { peer_id = cfg.identity.peer_id; priv_key = [] } })
        × (inf.crdt_status ≡ filter)
        × Describes hs comm (host_addresses listening addrs) usage w inf
  unfolding node_info peers Network.peers
  node_info_lem none listening addrs usage config filter w inf h =
      let (cfg, e, h1) = ok-bind config _ h in
      (cfg, e, ground arith, ground arith, (ground arith, ground arith, ground arith, ground arith))
  node_info_lem (some online) listening addrs usage config filter w inf h =
      let (du, eu, h1) = ok-bind usage _ h in
      let (cfg, e, h2) = ok-bind config _ h1 in
      let own = host_addresses listening addrs in
      let all : own_addresses hs.id_string hs.self own ≡ inf.addresses =
        ground (arith, addr_info_lem hs listening addrs) in
      (
        cfg,
        e,
        ground arith,
        ground arith,
        (
          ground arith,
          ground arith,
          ground (arith, eu),
          λ a.
              subst (λ l. In a l ↔ Reachable own (hs.id_string hs.self) a) all
                (own_addresses_iff hs.id_string hs.self own a),
        ),
      )

  -- When the command info succeeds, it prints a record in the format asked for, with the
  -- repository's configuration, but for the private key, which is blank, and with the node's filter.
  -- Before the daemon was started the record has no peers, no addresses and no usage; later it has the
  -- host's peers, the usage of the datastore and, each with the node's ID after it, exactly those of
  -- the addresses that the host listens on which do not start with "/ip4/127", or of the addresses
  -- that it has where it cannot say which it listens on.
  pub run_info-hides :
      (format : Format) (comm : NodeState) (listening : Result (List Str)) (addrs : List Str)
      (usage : Result Int64) (config : Result Config) (filter : Filter) (w : hs.World)
      (printed : Str)
      → run_info hs indent plain format comm listening addrs usage config filter w ≡ ok printed
      → (inf : NodeInfo Filter) × (cfg : Config) × Shows indent plain inf format printed
        × (config ≡ ok cfg)
        × (inf.config
            ≡ record cfg { identity = record { peer_id = cfg.identity.peer_id; priv_key = [] } })
        × (inf.crdt_status ≡ filter)
        × Describes hs comm (host_addresses listening addrs) usage w inf
  unfolding run_info
  run_info-hides format comm listening addrs usage config filter w printed h =
      let (inf, e, shown) =
        ok-bind (node_info hs comm listening addrs usage config filter w)
          (λ inf. print indent plain inf format) h in
      let (cfg, same, hidden, state, described) =
        node_info_lem comm listening addrs usage config filter w inf e in
      (inf, cfg, print-Shows indent plain inf format printed shown, same, hidden, state, described)
