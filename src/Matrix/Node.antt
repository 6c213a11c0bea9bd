-- ===== src/Matrix/Node.antt =====
-- The connectivity matrix, internal/matrix/matrix.go: NodeMatrix and the methods that a
-- discovery or a connection event calls. `now` is the value of time.Now().Unix().
pub mod Frame
pub mod Session
pub mod History
use ipfs_lite.Prelude.{
  ◌+◌, Bool, true, false, List, [], ◌∷◌, ◌++◌, Option, none, some, Str, Dict, lookup, insert, Int64,
  add64, sub64, Result, ok, panic, ◌==◌, if◌then◌else◌,
}

pub record ConnectionInfo : Type 0 where
  pub ble_discovered_at : Int64
  pub wifi_connected_at : Int64
  pub rssi : Int64
  pub speed : Int64
  pub frequency : Int64
  pub ipfs_connected_at : Int64
  pub disconnected_at : Int64

pub record DiscoveredNodeMatrix : Type 0 where
  pub connection_alive : Bool
  pub connection_success_count : Int64
  pub connection_failure_count : Int64
  pub last_successful_connection_duration : Int64
  pub ble_discovered_at : Int64
  pub wifi_connected_at : Int64
  pub rssi : Int64
  pub speed : Int64
  pub frequency : Int64
  pub ipfs_connected_at : Int64
  pub discovery_delays : List Int64
  pub connection_history : List ConnectionInfo

pub record NodeMatrix : Type 0 where
  pub total_uptime : Int64
  pub nodes_discovered : Dict DiscoveredNodeMatrix

-- `&DiscoveredNodeMatrix{DiscoveryDelays: []int64{}, ConnectionHistory: []ConnectionInfo{}}`
abbrev pub new_node : DiscoveredNodeMatrix
new_node = record {
  connection_alive = false;
  connection_success_count = 0;
  connection_failure_count = 0;
  last_successful_connection_duration = 0;
  ble_discovered_at = 0;
  wifi_connected_at = 0;
  rssi = 0;
  speed = 0;
  frequency = 0;
  ipfs_connected_at = 0;
  discovery_delays = [];
  connection_history = [];
}

-- The entry of an address, made first if there is none.
abbrev pub or_new : Option DiscoveredNodeMatrix → DiscoveredNodeMatrix
or_new none = new_node
or_new (some n) = n

abbrev pub node_of : Str → NodeMatrix → DiscoveredNodeMatrix
node_of address m = or_new (lookup address m.nodes_discovered)

-- What a method does to the entry that it has found or made.
unfoldable pub with_node :
    Str → (DiscoveredNodeMatrix → DiscoveredNodeMatrix) → NodeMatrix → NodeMatrix
with_node address f m = record m {
  nodes_discovered = insert address (f (node_of address m)) m.nodes_discovered;
}

unfoldable pub see_ble : Int64 → DiscoveredNodeMatrix → DiscoveredNodeMatrix
see_ble now n = if n.connection_alive then n else record n { ble_discovered_at = now }

unfoldable pub see_wifi :
    Int64 → Int64 → Int64 → Int64 → DiscoveredNodeMatrix → DiscoveredNodeMatrix
see_wifi now rssi speed freq n =
    if n.connection_alive
    then n
    else record n { wifi_connected_at = now; rssi = rssi; speed = speed; frequency = freq }

-- The delay from the discovery to the connection; zero is recorded as one second.
unfoldable pub delay_of : Int64 → Int64 → Int64
delay_of now seen = let delay = sub64 now seen in if delay == 0 then 1 else delay

unfoldable pub connect_node : Int64 → DiscoveredNodeMatrix → DiscoveredNodeMatrix
connect_node now n = record n {
  connection_success_count = add64 n.connection_success_count 1;
  ipfs_connected_at = now;
  connection_alive = true;
  discovery_delays =
      if n.ble_discovered_at == 0
      then n.discovery_delays
      else n.discovery_delays ++ delay_of now n.ble_discovered_at ∷ [];
}

unfoldable pub fail_node : DiscoveredNodeMatrix → DiscoveredNodeMatrix
fail_node n = record n {
  connection_failure_count = add64 n.connection_failure_count 1;
  ble_discovered_at = 0;
  wifi_connected_at = 0;
  rssi = 0;
  speed = 0;
  frequency = 0;
}

-- The history entry of the session that ends now.
abbrev pub session_of : Int64 → DiscoveredNodeMatrix → ConnectionInfo
session_of now n = record {
  ble_discovered_at = n.ble_discovered_at;
  wifi_connected_at = n.wifi_connected_at;
  rssi = n.rssi;
  speed = n.speed;
  frequency = n.frequency;
  ipfs_connected_at = n.ipfs_connected_at;
  disconnected_at = now;
}

-- The clock is read twice, for the duration and then for the history.
unfoldable pub disconnect_node : Int64 → Int64 → DiscoveredNodeMatrix → DiscoveredNodeMatrix
disconnect_node ended down n = record n {
  last_successful_connection_duration = sub64 ended n.ipfs_connected_at;
  connection_history = n.connection_history ++ session_of down n ∷ [];
  connection_alive = false;
  ble_discovered_at = 0;
  wifi_connected_at = 0;
  ipfs_connected_at = 0;
  rssi = 0;
  speed = 0;
  frequency = 0;
}

-- `BLEDiscovered`
unfoldable pub ble_discovered : Int64 → Str → NodeMatrix → NodeMatrix
ble_discovered now address = with_node address (see_ble now)

-- `WifiConnected`
unfoldable pub wifi_connected : Int64 → Str → Int64 → Int64 → Int64 → NodeMatrix → NodeMatrix
wifi_connected now address rssi speed freq = with_node address (see_wifi now rssi speed freq)

-- `NodeConnected`
unfoldable pub node_connected : Int64 → Str → NodeMatrix → NodeMatrix
node_connected now address = with_node address (connect_node now)

-- `NodeConnectionFailed`
unfoldable pub node_connection_failed : Str → NodeMatrix → NodeMatrix
node_connection_failed address = with_node address fail_node

-- `NodeDisconnected`: it writes through the pointer of the entry without a test for nil.
unfoldable pub node_disconnected : Int64 → Int64 → Str → NodeMatrix → Result NodeMatrix
unfolding disconnect_node
node_disconnected ended down address m = elim (lookup address m.nodes_discovered) [
  | none ↦ panic
  | some n ↦ ok (record m {
    nodes_discovered = insert address (disconnect_node ended down n) m.nodes_discovered;
  })
]

-- `GetNodeStat`
unfoldable pub get_node_stat : Str → NodeMatrix → Result DiscoveredNodeMatrix
get_node_stat address m = elim (lookup address m.nodes_discovered) [ none ↦ panic | some n ↦ ok n ]

-- The calls that change the matrix. A disconnection has the second reading of the clock.
pub data Event : Type 0 where
  ble : Event
  wifi : Int64 → Int64 → Int64 → Event
  connected failed : Event
  disconnected : Int64 → Event

-- One call at an address.
unfoldable pub step : Int64 → Str → Event → NodeMatrix → Result NodeMatrix
step now a ble m = ok (ble_discovered now a m)
step now a (wifi r s f) m = ok (wifi_connected now a r s f m)
step now a connected m = ok (node_connected now a m)
step now a failed m = ok (node_connection_failed a m)
step now a (disconnected down) m = node_disconnected now down a m
