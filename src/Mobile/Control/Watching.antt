-- ===== src/Mobile/Control/Watching.antt =====
-- Two nodes that have the same state let go of each other.
use mathlib.Core.Path.{subst}
use ipfs_lite.Prelude.{
  ◌≡◌, sym, ap, ◌∙◌, arith, ◌<◌, ℕ, true, false, some, Str, str_eq_iff, str_eq_refl, ok, ◌≢◌,
}
use ipfs_lite.Mobile.Control.{Watcher, on_same, on_message}
use ipfs_lite.Mobile.Discovery.{DiscoveryService, leave_wifi, leave_hotspot, same_state}
use ipfs_lite.Mobile.Discovery.InStep.{InStep, hotspot_on, same_state-InStep}

heard :
    (me from state : Str) (peers : ℕ) (v : Watcher)
    → from ≢ me
    → v.locked ≡ false
    → (on_message (ok me) (ok state) true peers (some (from, state)) v).service
      ≡ same_state peers v.service
unfolding on_message on_same
heard me from state peers v ne free = ground (arith, str_eq_iff from me, str_eq_refl state)

released :
    (peers : ℕ) (b : DiscoveryService)
    → (peers < 2 → (same_state peers b).is_host ≡ false)
      × (b.is_host ≡ false → (same_state peers b).connected ≡ false)
unfolding same_state leave_wifi leave_hotspot
released peers b = (λ few. ground arith, λ guest. ground arith)

-- When the watcher hears from another node that has its own state, and its answer marshals, then the
-- node is no host with fewer than two peers any more, and its hotspot does not run then; and a node
-- that was no host is not connected to a hotspot. A service in step with its drivers stays so.
same_state_releases :
    (me from state : Str) (peers : ℕ) (v : Watcher)
    → from ≢ me
    → v.locked ≡ false
    → InStep v.service
    → InStep (on_message (ok me) (ok state) true peers (some (from, state)) v).service
      × (peers < 2
          → hotspot_on
              (on_message (ok me) (ok state) true peers (some (from, state)) v).service.calls
            ≡ false)
      × (v.service.is_host ≡ false
          → (on_message (ok me) (ok state) true peers (some (from, state)) v).service.connected
            ≡ false)
same_state_releases me from state peers v ne free s =
    let same = heard me from state peers v ne free in
    let kept = same_state-InStep peers v.service s in
    let (few, guest) = released peers v.service in
    let ran = kept.host in
    (
      subst InStep (sym same) kept,
      λ h.
          let off = few h in ap (λ (b : DiscoveryService). hotspot_on b.calls) same ∙ sym ran ∙ off,
      λ h. let gone = guest h in ap (λ (b : DiscoveryService). b.connected) same ∙ gone,
    )
