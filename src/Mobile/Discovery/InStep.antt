-- ===== src/Mobile/Discovery/InStep.antt =====
-- The service's own record and the calls that the drivers have received stay in step.
use ipfs_lite.Prelude.{
  ◌≡◌, refl, sym, ◌∙◌, Int64, arith, ℕ, Bool, true, false, not, ◌&&◌, leb, List, [], ◌∷◌, Str,
  str_eq, lookup, lookup-insert, if◌then◌else◌, if_cases,
}
use ipfs_lite.Matrix.Node.{NodeMatrix, ble_discovered}
use ipfs_lite.Mobile.Discovery.{
  Call, scan_info, adv_info, hotspot_start, hotspot_stop, DiscoveryService, new_discovery_service,
  or_empty, add_advertising_info, start, start_only_advertising, start_only_scanning, close,
  discovery_peer_different_status, advertiser_peer_different_status, on_connection_success,
  on_connection_failure, Act, starts, advertises, scans, closes, informs, registers, unregisters,
  finds, is_found, same_status, joins, fails, disconnects, network_info, hears_same, leave_wifi,
  leave_hotspot, same_state, act, acts,
}

-- Whether the hotspot runs after some calls, the newest first.
unfoldable pub hotspot_on : List Call → Bool
hotspot_on [] = false
hotspot_on (hotspot_start ∷ cs) = true
hotspot_on (hotspot_stop ∷ cs) = false
hotspot_on (c ∷ cs) = hotspot_on cs

-- The hotspot is started only while it does not run.
unfoldable pub StartedOnce : List Call → Type 0
unfolding hotspot_on
StartedOnce [] = Unit
StartedOnce (hotspot_start ∷ cs) = (hotspot_on cs ≡ false) × StartedOnce cs
StartedOnce (c ∷ cs) = StartedOnce cs

-- What the advertiser, or the scanner, has last been told of a topic.
unfoldable pub advertised : Str → List Call → Str
advertised topic [] = []
advertised topic (adv_info t i ∷ cs) =
    let rest = advertised topic cs in if str_eq t topic then i else rest
advertised topic (c ∷ cs) = advertised topic cs

unfoldable pub scanned : Str → List Call → Str
scanned topic [] = []
scanned topic (scan_info t i ∷ cs) =
    let rest = scanned topic cs in if str_eq t topic then i else rest
scanned topic (c ∷ cs) = scanned topic cs

pub record InStep (b : DiscoveryService) : Type 0 where
  pub host : b.is_host ≡ hotspot_on b.calls
  pub once : StartedOnce b.calls
  pub told :
      (topic : Str)
      → (or_empty (lookup topic b.advertising_info) ≡ advertised topic b.calls)
        × (or_empty (lookup topic b.advertising_info) ≡ scanned topic b.calls)

new-InStep :
    (id tag : Str) (scan interval : ℕ) (m : NodeMatrix)
    → InStep (new_discovery_service id scan interval tag m)
unfolding new_discovery_service hotspot_on StartedOnce advertised scanned lookup
new-InStep id tag scan interval m = record { host = refl; once = tt; told = λ topic. (refl, refl) }

inform-InStep :
    (topic info : Str) (b : DiscoveryService)
    → InStep b
    → InStep (add_advertising_info topic info b)
unfolding add_advertising_info hotspot_on StartedOnce advertised scanned
inform-InStep topic info b s =
    if_cases InStep (str_eq (or_empty (lookup topic b.advertising_info)) info) (λ same. s)
      (λ new. record {
        host = s.host;
        once = s.once;
        told = λ t. ground (arith, lookup-insert topic t info b.advertising_info, s.told t);
      })

found-InStep :
    (now : Int64) (there : Bool) (peer : Str) (b : DiscoveryService)
    → InStep b
    → InStep (advertiser_peer_different_status now there peer b)
unfolding advertiser_peer_different_status hotspot_on StartedOnce advertised scanned
found-InStep now there peer b s =
    if_cases InStep there (λ known. s) (λ new. if_cases InStep b.is_host runs off)
  where
    runs : b.is_host ≡ true → InStep (record b { matrix = ble_discovered now peer b.matrix })
    runs e = record { host = s.host; once = s.once; told = s.told }

    off :
        b.is_host ≡ false
        → InStep (record b {
          matrix = ble_discovered now peer b.matrix;
          is_host = true;
          calls = hotspot_start ∷ b.calls;
        })
    off e = record { host = refl; once = (sym s.host ∙ e, s.once); told = s.told }

finds-InStep :
    (now : Int64) (network pass peer : Str) (b : DiscoveryService)
    → InStep b
    → InStep (discovery_peer_different_status now network pass peer b)
unfolding discovery_peer_different_status hotspot_on StartedOnce advertised scanned
finds-InStep now network pass peer b s =
    if_cases InStep b.connected (λ there. s)
      (λ free. record { host = s.host; once = s.once; told = s.told })

leave_wifi-InStep : (b : DiscoveryService) → InStep b → InStep (leave_wifi b)
unfolding leave_wifi hotspot_on StartedOnce advertised scanned
leave_wifi-InStep b s =
    if_cases InStep (not b.is_host && b.connected)
      (λ joined. record { host = s.host; once = s.once; told = s.told }) (λ other. s)

leave_hotspot-InStep :
    (peers : ℕ) (b : DiscoveryService) → InStep b → InStep (leave_hotspot peers b)
unfolding leave_hotspot hotspot_on StartedOnce advertised scanned
leave_hotspot-InStep peers b s =
    if_cases InStep (b.is_host && leb peers 1)
      {x = record b { is_host = false; calls = hotspot_stop ∷ b.calls }}
      (λ alone. record { host = refl; once = s.once; told = s.told }) (λ other. s)

pub same_state-InStep : (peers : ℕ) (b : DiscoveryService) → InStep b → InStep (same_state peers b)
unfolding same_state
same_state-InStep peers b s = leave_hotspot-InStep peers (leave_wifi b) (leave_wifi-InStep b s)

act-InStep : (a : Act) (b : DiscoveryService) → InStep b → InStep (act a b)
unfolding act start start_only_advertising start_only_scanning close on_connection_success
    on_connection_failure hotspot_on StartedOnce advertised scanned
act-InStep starts b s = record { host = s.host; once = s.once; told = s.told }
act-InStep advertises b s = record { host = s.host; once = s.once; told = s.told }
act-InStep scans b s = record { host = s.host; once = s.once; told = s.told }
act-InStep closes b s = record { host = refl; once = s.once; told = s.told }
act-InStep (informs topic info) b s = inform-InStep topic info b s
act-InStep (registers n) b s = record { host = s.host; once = s.once; told = s.told }
act-InStep (unregisters n) b s = record { host = s.host; once = s.once; told = s.told }
act-InStep (finds now network pass peer) b s = finds-InStep now network pass peer b s
act-InStep (is_found now there peer) b s = found-InStep now there peer b s
act-InStep same_status b s = record { host = s.host; once = s.once; told = s.told }
act-InStep (joins now host rssi speed freq) b s = record {
  host = s.host;
  once = s.once;
  told = s.told;
}
act-InStep fails b s = record { host = s.host; once = s.once; told = s.told }
act-InStep disconnects b s = record { host = s.host; once = s.once; told = s.told }
act-InStep (network_info network pass) b s = record { host = s.host; once = s.once; told = s.told }
act-InStep (hears_same peers) b s = same_state-InStep peers b s

keep-InStep : (calls : List Act) (b : DiscoveryService) → InStep b → InStep (acts calls b)
unfolding acts
keep-InStep [] b s = s
keep-InStep (a ∷ later) b s = keep-InStep later (act a b) (act-InStep a b s)

-- Whatever calls a new discovery service gets, in any order: it counts itself as the host exactly
-- while its hotspot runs, it never starts a hotspot that runs, and for every topic both drivers were
-- last told what the service remembers.
pub acts-InStep :
    (calls : List Act) (id tag : Str) (scan interval : ℕ) (m : NodeMatrix)
    → InStep (acts calls (new_discovery_service id scan interval tag m))
acts-InStep calls id tag scan interval m =
    keep-InStep calls (new_discovery_service id scan interval tag m)
      (new-InStep id tag scan interval m)
