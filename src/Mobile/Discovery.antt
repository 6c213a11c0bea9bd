-- ===== src/Mobile/Discovery.antt =====
-- The discovery service, mobile/discovery.go: discovery over BLE, and the WiFi hotspot that two
-- nodes then use. The drivers belong to the host application: the model keeps the calls they get.
pub mod InStep
use ipfs_lite.Prelude.{
  ℕ, Bool, true, false, not, List, [], ◌∷◌, ◌++◌, Option, none, some, codes, Str, str_eq, Dict,
  lookup, insert, Int64, leb, ◌&&◌, ◌==◌, if◌then◌else◌,
}
use ipfs_lite.Matrix.Node.{NodeMatrix, ble_discovered, wifi_connected}

-- The calls of the DiscoveryDriver (scan), AdvertisingDriver (adv), WifiHotspot and WifiConnection.
pub data Call : Type 0 where
  scan_start : Str → Str → ℕ → ℕ → Call
  adv_start : Str → Str → Call
  scan_info adv_info : Str → Str → Call
  scan_stop adv_stop : Call
  hotspot_start hotspot_stop : Call
  wifi_connect : Str → Str → Str → Call
  wifi_disconnect : Call
  notify_empty : Call
  notify_network : Str → Str → Call

pub data ServiceType : Type 0 where
  unset scan_and_advertise only_scan only_adv : ServiceType

-- `discoveryService`, the node's matrix, and the calls so far, the newest first. A notifee is its
-- identity.
pub record DiscoveryService : Type 0 where
  pub id : Str
  pub tag : Str
  pub scan : ℕ
  pub interval : ℕ
  pub notifees : List ℕ
  pub advertising_info : Dict Str
  pub connected : Bool
  pub is_host : Bool
  pub service : ServiceType
  pub matrix : NodeMatrix
  pub calls : List Call

-- `NewDiscoveryService`
unfoldable pub new_discovery_service : Str → ℕ → ℕ → Str → NodeMatrix → DiscoveryService
new_discovery_service id scan interval tag matrix = record {
  id = id;
  tag = if str_eq tag [] then codes "_datahop-discovery._ble" else tag;
  scan = scan;
  interval = interval;
  notifees = [];
  advertising_info = [];
  connected = false;
  is_host = false;
  service = unset;
  matrix = matrix;
  calls = [];
}

-- What a Go map of strings gives at a key: the empty string where it has none.
abbrev pub or_empty : Option Str → Str
or_empty none = []
or_empty (some s) = s

-- `AddAdvertisingInfo`: the drivers are told of a change only.
unfoldable pub add_advertising_info : Str → Str → DiscoveryService → DiscoveryService
add_advertising_info topic info b =
    if str_eq (or_empty (lookup topic b.advertising_info)) info then b else record b {
      advertising_info = insert topic info b.advertising_info;
      calls = adv_info topic info ∷ scan_info topic info ∷ b.calls;
    }

-- `Start`, `StartOnlyAdvertising` and `StartOnlyScanning`
unfoldable pub start : DiscoveryService → DiscoveryService
start b = record b {
  service = scan_and_advertise;
  calls = adv_start b.tag b.id ∷ scan_start b.tag b.id b.scan b.interval ∷ b.calls;
}

unfoldable pub start_only_advertising : DiscoveryService → DiscoveryService
start_only_advertising b = record b { service = only_adv; calls = adv_start b.tag b.id ∷ b.calls }

unfoldable pub start_only_scanning : DiscoveryService → DiscoveryService
start_only_scanning b = record b {
  service = only_scan;
  calls = scan_start b.tag b.id b.scan b.interval ∷ b.calls;
}

-- `Close` and `close`
unfoldable pub close : DiscoveryService → DiscoveryService
close b = record b {
  is_host = false;
  calls = hotspot_stop ∷ wifi_disconnect ∷ adv_stop ∷ scan_stop ∷ b.calls;
}

-- `UnregisterNotifee`: the first occurrence goes.
unfoldable pub unregister : ℕ → List ℕ → List ℕ
unregister n [] = []
unregister n (m ∷ ns) = let rest = unregister n ns in if m == n then ns else m ∷ rest

-- `DiscoveryPeerDifferentStatus`
unfoldable pub discovery_peer_different_status :
    Int64 → Str → Str → Str → DiscoveryService → DiscoveryService
discovery_peer_different_status now network pass peer b = if b.connected then b else record b {
  matrix = ble_discovered now peer b.matrix;
  calls = wifi_connect network pass peer ∷ b.calls;
}

-- `AdvertiserPeerDifferentStatus`; `there` is whether the node is connected to the peer already.
unfoldable pub advertiser_peer_different_status :
    Int64 → Bool → Str → DiscoveryService → DiscoveryService
advertiser_peer_different_status now there peer b =
    if there
    then b
    else if b.is_host
    then record b { matrix = ble_discovered now peer b.matrix }
    else record b {
      matrix = ble_discovered now peer b.matrix;
      is_host = true;
      calls = hotspot_start ∷ b.calls;
    }

-- `OnConnectionSuccess`; `host` is what `wifiCon.Host()` returns.
unfoldable pub on_connection_success :
    Int64 → Str → Int64 → Int64 → Int64 → DiscoveryService → DiscoveryService
on_connection_success now host rssi speed freq b = record b {
  matrix = wifi_connected now host rssi speed freq b.matrix;
  connected = true;
}

-- `OnConnectionFailure`
unfoldable pub on_connection_failure : DiscoveryService → DiscoveryService
on_connection_failure b = record b { connected = false; calls = wifi_disconnect ∷ b.calls }

-- What the watcher of mobile/datahop.go does when it hears of the same state: a node that joined a
-- hotspot leaves it, and a host stops its hotspot when fewer than two peers are left.
unfoldable pub leave_wifi : DiscoveryService → DiscoveryService
leave_wifi b =
    if not b.is_host && b.connected
    then record b { connected = false; calls = wifi_disconnect ∷ b.calls }
    else b

unfoldable pub leave_hotspot : ℕ → DiscoveryService → DiscoveryService
leave_hotspot peers b =
    if b.is_host && leb peers 1
    then record b { is_host = false; calls = hotspot_stop ∷ b.calls }
    else b

unfoldable pub same_state : ℕ → DiscoveryService → DiscoveryService
unfolding leave_wifi leave_hotspot
same_state peers b = leave_hotspot peers (leave_wifi b)

-- The calls that the application, the node and the drivers make on the service.
pub data Act : Type 0 where
  starts advertises scans closes : Act
  informs : Str → Str → Act
  registers unregisters : ℕ → Act
  finds : Int64 → Str → Str → Str → Act
  is_found : Int64 → Bool → Str → Act
  same_status : Act
  joins : Int64 → Str → Int64 → Int64 → Int64 → Act
  fails disconnects : Act
  network_info : Str → Str → Act
  hears_same : ℕ → Act

unfoldable pub act : Act → DiscoveryService → DiscoveryService
unfolding start start_only_advertising start_only_scanning close on_connection_failure same_state
act starts b = start b
act advertises b = start_only_advertising b
act scans b = start_only_scanning b
act closes b = close b
act (informs topic info) b = add_advertising_info topic info b
act (registers n) b = record b { notifees = b.notifees ++ n ∷ [] }
act (unregisters n) b = record b { notifees = unregister n b.notifees }
act (finds now network pass peer) b = discovery_peer_different_status now network pass peer b
act (is_found now there peer) b = advertiser_peer_different_status now there peer b
act same_status b = record b { calls = notify_empty ∷ b.calls }
act (joins now host rssi speed freq) b = on_connection_success now host rssi speed freq b
act fails b = on_connection_failure b
act disconnects b = record b { connected = false }
act (network_info network pass) b = record b { calls = notify_network network pass ∷ b.calls }
act (hears_same peers) b = same_state peers b

unfoldable pub acts : List Act → DiscoveryService → DiscoveryService
acts [] b = b
acts (a ∷ later) b = acts later (act a b)
