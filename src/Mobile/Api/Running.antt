-- ===== src/Mobile/Api/Running.antt =====
-- The state of the mobile library, mobile/datahop.go: what `hop` points to.
use ipfs_lite.Prelude.{Bool, codes, Str, Result, ok, err, panic}
use ipfs_lite.Mobile.Discovery.{DiscoveryService, add_advertising_info}
use ipfs_lite.Replication.Hooks.{Local}

-- `datahop`: whether the node was started (comm.Node is set), the discovery service, and the node's
-- own state.
pub record Hop (Files Filter : Type 0) : Type 0 where
  pub node_started : Bool
  pub discovery : DiscoveryService
  pub local : Local Files Filter

abbrev pub crdt_status : Str
crdt_status = codes "datahop-crdt-status"

-- The last part of the functions that add content: the text of a filter is advertised, or its error
-- returned. `text` is the field "b" of the filter's JSON.
unfoldable pub advertise :
    {Files Filter : Type 0}
    → (Filter → Result Str)
    → Filter
    → Hop Files Filter
    → Hop Files Filter × Result (Unit {0})
advertise text filter h = elim (text filter) [
  | ok bf ↦ (record h { discovery = add_advertising_info crdt_status bf h.discovery }, ok tt)
  | err e ↦ (h, err e)
  | panic ↦ (h, panic)
]
