-- ===== src/Peer/Start/Opened.antt =====
-- What is open after a start.
use mathlib.Core.Path.{subst}
use ipfs_lite.Prelude.{
  ◌≡◌, refl, arith, Bool, true, false, Option, none, some, List, [], ◌∷◌, ◌&&◌, Error, Result, ok,
  err,
}
use ipfs_lite.Peer.Start.{
  Options, default_options, Choice, chosen, Outcomes, Node, no_node, unless_error, decoded_key,
  setup_libp2p, setup_services, setup_crdt_store, go_online, new_node,
}

-- The first error of some steps, or a success.
unfoldable pub first_error : List (Option Error) → Result (Unit {0})
first_error [] = ok tt
first_error (none ∷ later) = first_error later
first_error (some e ∷ later) = err e

abbrev is_nil : Option Error → Bool
is_nil none = true
is_nil (some e) = false

abbrev pub steps : Options → Outcomes → List (Option Error)
steps opts o =
    o.config ∷ decoded_key o.swarm_key ∷ o.libp2p ∷ o.blockstore ∷ o.replication opts ∷ []

-- Everything of a node runs, with a manager of the options; or nothing runs but, maybe, its host.
abbrev pub Runs : Options → Node → Type 0
Runs opts n =
    (n.online ≡ true)
    × (n.host_open ≡ true)
    × (n.bserv_open ≡ true)
    × (n.manager ≡ some opts)
    × (n.watching ≡ true)
    × (n.ticking ≡ true)

abbrev pub Rests : Bool → Node → Type 0
Rests host n =
    (n.online ≡ false)
    × (n.host_open ≡ host)
    × (n.bserv_open ≡ false)
    × (n.manager ≡ none)
    × (n.watching ≡ false)
    × (n.ticking ≡ false)

-- New returns the first error of its steps. After a success the node is online with everything open
-- and its manager has the chosen options. After an error the node is not online, watches nothing and
-- has no open block service, but its host stays open where the steps up to the host had succeeded.
pub new_node_lem :
    (cs : List Choice) (o : Outcomes)
    → ((new_node cs o no_node).0 ≡ first_error (steps (chosen cs default_options) o))
      × ((new_node cs o no_node).0 ≡ ok tt
          → Runs (chosen cs default_options) (new_node cs o no_node).1)
      × ((e : Error)
          → (new_node cs o no_node).0 ≡ err e
          → Rests
              (is_nil o.config && is_nil (decoded_key o.swarm_key) && is_nil o.libp2p)
              (new_node cs o no_node).1)
unfolding new_node unless_error setup_libp2p setup_services setup_crdt_store go_online first_error
new_node_lem cs o =
    go o.config refl (decoded_key o.swarm_key) refl o.libp2p refl o.blockstore refl
      (o.replication (chosen cs default_options)) refl
  where
    Goal : Type 0
    Goal =
        ((new_node cs o no_node).0 ≡ first_error (steps (chosen cs default_options) o))
        × ((new_node cs o no_node).0 ≡ ok tt
            → Runs (chosen cs default_options) (new_node cs o no_node).1)
        × ((e : Error)
            → (new_node cs o no_node).0 ≡ err e
            → Rests (is_nil o.config && is_nil (decoded_key o.swarm_key) && is_nil o.libp2p)
                (new_node cs o no_node).1)

    reached : Bool
    reached = is_nil o.config && is_nil (decoded_key o.swarm_key) && is_nil o.libp2p

    failed :
        (x : Error) (n : Node)
        → new_node cs o no_node ≡ (err x, n)
        → first_error (steps (chosen cs default_options) o) ≡ err x
        → Rests reached n
        → Goal
    failed x n run first rests =
        let left : n ≡ (new_node cs o no_node).1 = ground arith in
        (ground arith, λ h. absurd (ground arith), λ e h. subst (Rests reached) left rests)

    go :
        (a : Option Error)
        → o.config ≡ a
        → (b : Option Error) → decoded_key o.swarm_key ≡ b
        → (c : Option Error) → o.libp2p ≡ c
        → (d : Option Error) → o.blockstore ≡ d
        → (r : Option Error) → o.replication (chosen cs default_options) ≡ r
        → Goal
    go (some x) ea b eb c ec d ed r er =
        failed x no_node (ground arith) (ground arith) (refl, ground arith, refl, refl, refl, refl)
    go none ea (some x) eb c ec d ed r er =
        failed x no_node (ground arith) (ground arith) (refl, ground arith, refl, refl, refl, refl)
    go none ea none eb (some x) ec d ed r er =
        failed x no_node (ground arith) (ground arith) (refl, ground arith, refl, refl, refl, refl)
    go none ea none eb none ec (some x) ed r er =
        failed x (record no_node { host_open = true }) (ground arith) (ground arith)
          (refl, ground arith, refl, refl, refl, refl)
    go none ea none eb none ec none ed (some x) er =
        failed x (record no_node { host_open = true }) (ground arith) (ground arith)
          (refl, ground arith, refl, refl, refl, refl)
    go none ea none eb none ec none ed none er = (
      ground arith,
      λ h. (ground arith, ground arith, ground arith, ground arith, ground arith, ground arith),
      λ e h. absurd (ground arith),
    )
