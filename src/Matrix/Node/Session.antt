-- ===== src/Matrix/Node/Session.antt =====
-- One session of a peer, from its discovery over BLE to its disconnection.
use ipfs_lite.Prelude.{
  ◌≡◌, ◌≢◌, ap, true, false, [], ◌∷◌, ◌++◌, arith, Str, lookup, insert, lookup-insert_self,
  insert-insert, Int64, lookup-insert, str_eq_iff, Option-cases, inl, inr, add64, sub64, ok,
}
use ipfs_lite.Matrix.Node.{
  NodeMatrix, DiscoveredNodeMatrix, with_node, node_of, see_ble, see_wifi, connect_node,
  disconnect_node, delay_of, ble_discovered, wifi_connected, node_connected, node_disconnected,
}

-- The entry after a whole session that began at the entry `n`.
abbrev pub after_session :
    Int64
    → Int64
    → Int64
    → Int64
    → Int64
    → Int64
    → Int64
    → Int64
    → DiscoveredNodeMatrix
    → DiscoveredNodeMatrix
after_session seen joined up ended down rssi speed freq n = record {
  connection_alive = false;
  connection_success_count = add64 n.connection_success_count 1;
  connection_failure_count = n.connection_failure_count;
  last_successful_connection_duration = sub64 ended up;
  ble_discovered_at = 0;
  wifi_connected_at = 0;
  rssi = 0;
  speed = 0;
  frequency = 0;
  ipfs_connected_at = 0;
  discovery_delays = n.discovery_delays ++ delay_of up seen ∷ [];
  connection_history =
      n.connection_history
      ++ (record {
        ble_discovered_at = seen;
        wifi_connected_at = joined;
        rssi = rssi;
        speed = speed;
        frequency = freq;
        ipfs_connected_at = up;
        disconnected_at = down;
      })
        ∷ [];
}

with_node-with_node :
    (a : Str) (f g : DiscoveredNodeMatrix → DiscoveredNodeMatrix) (m : NodeMatrix)
    → with_node a f (with_node a g m) ≡ with_node a (λ n. f (g n)) m
unfolding with_node
with_node-with_node a f g m = ground (
  arith,
  lookup-insert_self a (g (node_of a m)) m.nodes_discovered,
  insert-insert a (f (g (node_of a m))) (g (node_of a m)) m.nodes_discovered,
)

disconnect-with_node :
    (ended down : Int64) (a : Str) (f : DiscoveredNodeMatrix → DiscoveredNodeMatrix)
    (m : NodeMatrix)
    → node_disconnected ended down a (with_node a f m)
      ≡ ok (with_node a (λ n. disconnect_node ended down (f n)) m)
unfolding node_disconnected with_node
disconnect-with_node ended down a f m = ground (
  arith,
  lookup-insert_self a (f (node_of a m)) m.nodes_discovered,
  insert-insert a (disconnect_node ended down (f (node_of a m))) (f (node_of a m))
      m.nodes_discovered,
)

with_node-at :
    (a : Str) (f : DiscoveredNodeMatrix → DiscoveredNodeMatrix) (m : NodeMatrix)
    {n : DiscoveredNodeMatrix}
    → f (node_of a m) ≡ n
    → with_node a f m ≡ record m { nodes_discovered = insert a n m.nodes_discovered }
unfolding with_node
with_node-at a f m e = rw e

session_entry :
    (seen joined up ended down rssi speed freq : Int64) (n : DiscoveredNodeMatrix)
    → n.connection_alive ≡ false
    → seen ≢ 0
    → disconnect_node ended down
        (connect_node up (see_wifi joined rssi speed freq (see_ble seen n)))
      ≡ after_session seen joined up ended down rssi speed freq n
unfolding disconnect_node connect_node see_wifi see_ble
session_entry seen joined up ended down rssi speed freq n idle stamped = ground arith

-- A peer that is not connected is discovered over BLE at a time other than zero, joins the WiFi,
-- connects and disconnects. The calls return, add one history entry with the data of all four
-- events and one discovery delay, count one success, set the duration, and clear the session fields;
-- nothing else of the matrix changes.
pub session_recorded :
    (a : Str) (seen joined up ended down rssi speed freq : Int64) (m : NodeMatrix)
    → (node_of a m).connection_alive ≡ false
    → seen ≢ 0
    → node_disconnected ended down a
        (node_connected up a (wifi_connected joined a rssi speed freq (ble_discovered seen a m)))
      ≡ ok (record m {
        nodes_discovered =
            insert a
              (after_session seen joined up ended down rssi speed freq (node_of a m))
              m.nodes_discovered;
      })
unfolding ble_discovered wifi_connected node_connected
session_recorded a seen joined up ended down rssi speed freq m idle stamped =
    rw
      (
        with_node-with_node a (see_wifi joined rssi speed freq) (see_ble seen) m,
        with_node-with_node a (connect_node up)
            (λ n. see_wifi joined rssi speed freq (see_ble seen n)) m,
        disconnect-with_node ended down a
            (λ n. connect_node up (see_wifi joined rssi speed freq (see_ble seen n))) m,
      )
      (ap ok (
        with_node-at a _ m
          (session_entry seen joined up ended down rssi speed freq (node_of a m) idle stamped)))

-- While a peer is connected, another discovery of it or another report of its WiFi link changes
-- nothing that a lookup finds: the times of the running session stay.
pub alive_session_kept :
    (a j : Str) (now rssi speed freq : Int64) (m : NodeMatrix)
    → (node_of a m).connection_alive ≡ true
    → (lookup j (ble_discovered now a m).nodes_discovered ≡ lookup j m.nodes_discovered)
      × (lookup j (wifi_connected now a rssi speed freq m).nodes_discovered
          ≡ lookup j m.nodes_discovered)
unfolding ble_discovered wifi_connected with_node see_ble see_wifi
alive_session_kept a j now rssi speed freq m live =
    elim (Option-cases (lookup a m.nodes_discovered)) [
      | inl absent ↦ ground arith
      | inr (n, found) ↦ ground (arith, lookup-insert a j n m.nodes_discovered, str_eq_iff a j)
    ]
