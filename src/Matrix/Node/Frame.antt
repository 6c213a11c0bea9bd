-- ===== src/Matrix/Node/Frame.antt =====
-- Which entries a connection event touches, and when it panics.
use ipfs_lite.Prelude.{
  ◌≡◌, refl, ◌≢◌, ◌↔◌, none, arith, Str, lookup, insert, lookup-insert_ne, Int64, ok, panic,
}
use ipfs_lite.Matrix.Node.{
  NodeMatrix, DiscoveredNodeMatrix, Event, ble, wifi, connected, failed, disconnected, step,
  with_node, ble_discovered, wifi_connected, node_connected, node_connection_failed,
  node_disconnected, get_node_stat, disconnect_node, node_of, see_ble, see_wifi, connect_node,
  fail_node,
}

-- A call that returns has written one entry and nothing else.
step-insert :
    (now : Int64) (a : Str) (e : Event) (m m' : NodeMatrix)
    → step now a e m ≡ ok m'
    → (n : DiscoveredNodeMatrix) × (m'
        ≡ record m { nodes_discovered = insert a n m.nodes_discovered })
unfolding step with_node ble_discovered wifi_connected node_connected node_connection_failed
    node_disconnected
step-insert now a ble m m' h = (see_ble now (node_of a m), ground arith)
step-insert now a (wifi r s f) m m' h = (see_wifi now r s f (node_of a m), ground arith)
step-insert now a connected m m' h = (connect_node now (node_of a m), ground arith)
step-insert now a failed m m' h = (fail_node (node_of a m), ground arith)
step-insert now a (disconnected down) m m' h =
    (disconnect_node now down (node_of a m), ground arith)

-- A call at one address leaves the entry of every other address as it was, and the uptime too, on
-- every branch of every call that returns.
pub step_others :
    (now : Int64) (a j : Str) (e : Event) (m m' : NodeMatrix)
    → j ≢ a
    → step now a e m ≡ ok m'
    → (lookup j m'.nodes_discovered ≡ lookup j m.nodes_discovered)
      × (m'.total_uptime ≡ m.total_uptime)
step_others now a j e m m' ne h =
    let (n, same) = step-insert now a e m m' h in
    ground (arith, lookup-insert_ne a j n m.nodes_discovered)

-- `NodeDisconnected` and `GetNodeStat` panic at exactly the addresses that have no entry, and no
-- other call panics.
pub step_panics :
    (now : Int64) (a : Str) (e : Event) (m : NodeMatrix)
    → ((step now a e m ≡ panic)
        ↔ ((down : Int64) × (e ≡ disconnected down) × (lookup a m.nodes_discovered ≡ none)))
      × ((get_node_stat a m ≡ panic) ↔ (lookup a m.nodes_discovered ≡ none))
unfolding step node_disconnected get_node_stat
step_panics now a ble m = (
  (λ h. absurd (ground arith), λ h. let (d, e, none_there) = h in absurd (ground arith)),
  ground arith,
)
step_panics now a (wifi r s f) m = (
  (λ h. absurd (ground arith), λ h. let (d, e, none_there) = h in absurd (ground arith)),
  ground arith,
)
step_panics now a connected m = (
  (λ h. absurd (ground arith), λ h. let (d, e, none_there) = h in absurd (ground arith)),
  ground arith,
)
step_panics now a failed m = (
  (λ h. absurd (ground arith), λ h. let (d, e, none_there) = h in absurd (ground arith)),
  ground arith,
)
step_panics now a (disconnected down) m = (
  (λ h. (down, refl, ground arith), λ h. let (d, e, none_there) = h in ground arith),
  ground arith,
)
