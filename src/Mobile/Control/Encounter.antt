-- ===== src/Mobile/Control/Encounter.antt =====
-- Two nodes that find each other over BLE: the advertiser runs the hotspot, the discoverer joins it, and
-- the messages of the watchers let both go.
use ipfs_lite.Prelude.{
  ◌≡◌, ◌≢◌, refl, sym, arith, ◌<◌, ℕ, true, false, ◌∷◌, some, Str, str_eq_iff, str_eq_refl, ok,
  Int64,
}
use ipfs_lite.Matrix.Node.{ble_discovered, wifi_connected}
use ipfs_lite.Mobile.Control.{Watcher, waiting, on_same, on_message}
use ipfs_lite.Mobile.Discovery.{
  wifi_connect, wifi_disconnect, hotspot_start, hotspot_stop, DiscoveryService, leave_wifi,
  leave_hotspot, same_state, discovery_peer_different_status, advertiser_peer_different_status,
  on_connection_success,
}
use ipfs_lite.Mobile.Discovery.InStep.{hotspot_on}

-- A watcher that waits for its next message.
abbrev pub watching : DiscoveryService → Watcher
watching b = record { loop = waiting; locked = false; service = b }

-- The watcher after another node has told it the state that its own node has, where its answer
-- marshals.
abbrev pub agreed : Str → Str → Str → ℕ → DiscoveryService → Watcher
agreed me from state peers b =
    on_message (ok me) (ok state) true peers (some (from, state)) (watching b)

agreed_lem :
    (me from state : Str) (peers : ℕ) (b : DiscoveryService)
    → from ≢ me
    → agreed me from state peers b ≡ watching (same_state peers b)
unfolding on_message on_same
agreed_lem me from state peers b ne = ground (arith, str_eq_iff from me, str_eq_refl state)

-- The drivers of two nodes, neither of them a host or connected to a hotspot, report each other with
-- a different state, the advertiser not being connected to the other over the network, and then that
-- the discoverer has joined the hotspot: the discoverer has asked its driver for the advertiser's
-- network and is connected, the advertiser counts itself as host and its hotspot runs. Once each
-- hears from the other the state that it has itself, the answers marshal and the advertiser has fewer
-- than two peers left, the hotspot has been stopped and the discoverer has left it, both watchers
-- wait on, the discoverer's matrix has the discovery and the link, and a new report makes the
-- discoverer connect again.
pub encounter :
    (alice bob state network pass : Str) (seen joined rssi speed freq again : Int64) (pa pb : ℕ)
    (a b : DiscoveryService)
    → alice ≢ bob
    → pa < 2
    → a.is_host ≡ false
    → a.connected ≡ false
    → b.is_host ≡ false
    → b.connected ≡ false
    → (a1 b1 a2 b2 : DiscoveryService) × (advertiser_peer_different_status seen false bob a ≡ a1)
      × (on_connection_success joined alice rssi speed freq
            (discovery_peer_different_status seen network pass alice b)
          ≡ b1)
      × (hotspot_on a1.calls ≡ true)
      × (a1.is_host ≡ true)
      × (b1.calls ≡ wifi_connect network pass alice ∷ b.calls)
      × (b1.connected ≡ true)
      × (agreed alice bob state pa a1 ≡ watching a2)
      × (agreed bob alice state pb b1 ≡ watching b2)
      × (a2.calls ≡ hotspot_stop ∷ hotspot_start ∷ a.calls)
      × (hotspot_on a2.calls ≡ false)
      × (a2.is_host ≡ false)
      × (b2.calls ≡ wifi_disconnect ∷ wifi_connect network pass alice ∷ b.calls)
      × (b2.connected ≡ false)
      × (b2.matrix
          ≡ wifi_connected joined alice rssi speed freq (ble_discovered seen alice b.matrix))
      × ((discovery_peer_different_status again network pass alice b2).calls
          ≡ wifi_connect network pass alice ∷ b2.calls)
unfolding discovery_peer_different_status advertiser_peer_different_status on_connection_success
    same_state leave_wifi leave_hotspot hotspot_on
encounter alice bob state network pass seen joined rssi speed freq again pa pb a b ne few ah ac bh
      bc =
    let a1 = advertiser_peer_different_status seen false bob a in
    let b1 =
      on_connection_success joined alice rssi speed freq
        (discovery_peer_different_status seen network pass alice b) in
    (
      a1,
      b1,
      same_state pa a1,
      same_state pb b1,
      refl,
      refl,
      ground (arith, ah),
      ground (arith, ah),
      ground (arith, bc),
      refl,
      agreed_lem alice bob state pa a1 (λ e. ne (sym e)),
      agreed_lem bob alice state pb b1 ne,
      ground (arith, ah, ac, bh, bc),
      ground (arith, ah, ac, bh, bc),
      ground (arith, ah, ac, bh, bc),
      ground (arith, ah, ac, bh, bc),
      ground (arith, ah, ac, bh, bc),
      ground (arith, ah, ac, bh, bc),
      ground (arith, ah, ac, bh, bc),
    )
