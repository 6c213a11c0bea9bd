-- ===== src/Mobile/Control.antt =====
-- The discovery functions of mobile/datahop.go: StartDiscovery, StopDiscovery and what the watcher of
-- the state does with a message.
pub mod Watching
pub mod Encounter
use ipfs_lite.Prelude.{
  ◌≡◌, ℕ, Bool, true, false, Option, none, some, Str, str_eq, Error, Result, ok, err, panic,
  if◌then◌else◌,
}
use ipfs_lite.Mobile.Discovery.{
  DiscoveryService, start, start_only_advertising, start_only_scanning, close, same_state,
}

-- `hop`, where it is set, with its discovery service, where that is set.
abbrev pub Service : Type 0
Service = Option (Option DiscoveryService)

-- What StartDiscovery starts, or an error where it is to start nothing.
unfoldable pub start_modes : Bool → Bool → DiscoveryService → Result (Unit {0}) × DiscoveryService
unfolding start start_only_advertising start_only_scanning
start_modes true true b = (ok tt, start b)
start_modes true false b = (ok tt, start_only_advertising b)
start_modes false true b = (ok tt, start_only_scanning b)
start_modes false false b = (err Error.no_adv_scan, b)

-- `StartDiscovery`, before its goroutines run; `watcher` is what startCRDTStateWatcher returns.
unfoldable pub start_discovery :
    Bool → Bool → Bool → Result (Unit {0}) → Service → Result (Unit {0}) × Service
unfolding start_modes
start_discovery advertise scan auto_disconnect watcher none = (err Error.node_not_running, none)
start_discovery advertise scan auto_disconnect watcher (some none) =
    (err Error.no_discovery, some none)
start_discovery advertise scan false watcher (some (some b)) =
    let (r, b') = start_modes advertise scan b in (r, some (some b'))
start_discovery advertise scan true (ok u) (some (some b)) =
    let (r, b') = start_modes advertise scan b in (r, some (some b'))
start_discovery advertise scan true (err e) (some (some b)) = (err e, some (some b))
start_discovery advertise scan true panic (some (some b)) = (panic, some (some b))

-- `StopDiscovery`, which dereferences `hop` without a test.
unfoldable pub stop_discovery : Service → Result (Unit {0}) × Service
stop_discovery none = (panic, none)
stop_discovery (some none) = (err Error.no_discovery, some none)
stop_discovery (some (some b)) = (ok tt, some (some (close b)))

-- The loop of the watcher waits for its next message, has ended, or waits for a lock for ever.
pub data Loop : Type 0 where
  waiting stopped blocked : Loop

-- The watcher: its loop, its own lock and the service.
pub record Watcher : Type 0 where
  pub loop : Loop
  pub locked : Bool
  pub service : DiscoveryService

-- A message, `none` where it does not unmarshal: the sender and its state.
unfoldable pub on_same : Bool → ℕ → Watcher → Watcher
unfolding same_state
on_same marshals peers v =
    if v.locked
    then record v { loop = blocked }
    else if marshals
    then record v { service = same_state peers v.service }
    else record v { locked = true }

-- One round of the watcher: its own identifier and state, whether its answer marshals, and the number
-- of its peers. The answer that it publishes is not kept.
unfoldable pub on_message :
    Result Str → Result Str → Bool → ℕ → Option (Str × Str) → Watcher → Watcher
unfolding on_same
on_message id state marshals peers none v = record v { loop = stopped }
on_message (err e) state marshals peers (some (from, theirs)) v = record v { loop = stopped }
on_message panic state marshals peers (some (from, theirs)) v = record v { loop = stopped }
on_message (ok me) (err e) marshals peers (some (from, theirs)) v = v
on_message (ok me) panic marshals peers (some (from, theirs)) v = record v { loop = stopped }
on_message (ok me) (ok mine) marshals peers (some (from, theirs)) v =
    if str_eq from me then v else if str_eq theirs mine then on_same marshals peers v else v
