-- ===== src/Tests/Services.antt =====
-- The theorems on the discovery service and on the encryption at concrete calls.
use ipfs_lite.Prelude.{
  arith, ℕ, zero, suc, ◌≡◌, refl, ap, str_eq, str_eq_iff, ◌≢◌, true, false, [], ◌∷◌, Option, none,
  some, codes, Str, Error, Result, ok, err, panic, length,
}
use ipfs_lite.Peer.Start.{Outcomes}
use ipfs_lite.Extern.Cipher.{Cipher}
use ipfs_lite.Matrix.Keeper.{empty_matrix}
use ipfs_lite.Mobile.Discovery.{new_discovery_service, starts, informs, is_found, closes, acts}
use ipfs_lite.Matrix.Node.{ble_discovered, wifi_connected}
use ipfs_lite.Mobile.Control.Encounter.{encounter, agreed, watching}
use ipfs_lite.Mobile.Discovery.{
  DiscoveryService, wifi_connect, wifi_disconnect, hotspot_start, hotspot_stop,
  discovery_peer_different_status, advertiser_peer_different_status, on_connection_success,
}
use ipfs_lite.Mobile.Discovery.InStep.{InStep, hotspot_on, acts-InStep}

acts-InStep_example : InStep (
    acts
      (starts
        ∷ informs (codes "t") (codes "i")
        ∷ is_found 5 false (codes "p")
        ∷ is_found 6 false (codes "q")
        ∷ closes
        ∷ [])
      (new_discovery_service (codes "me") 1 2 [] empty_matrix))
acts-InStep_example =
    acts-InStep
      (starts
        ∷ informs (codes "t") (codes "i")
        ∷ is_found 5 false (codes "p")
        ∷ is_found 6 false (codes "q")
        ∷ closes
        ∷ [])
      (codes "me") [] 1 2 empty_matrix

abbrev gcm_of : Option Str → Result Str
gcm_of none = panic
gcm_of (some b) = ok b

abbrev zeros : ℕ → Str
zeros zero = []
zeros (suc n) = 0 ∷ zeros n

length-zeros : (n : ℕ) → length (zeros n) ≡ n
length-zeros zero = refl
length-zeros (suc n) = ap suc (length-zeros n)

pub length-random : (n : ℕ) (b : Str) → ok (zeros n) ≡ ok b → length b ≡ n
length-random n b h = ground (arith, length-zeros n)

-- Sealing puts a mark before the text.
abbrev unmark : Str → Result Str
unmark [] = err (Error.foreign 7)
unmark (c ∷ s) = ok s

abbrev pub marking : Cipher
marking = record {
  Block = Str;
  Gcm = Str;
  md5_hex = λ k. k;
  new_cipher = λ k. ok k;
  new_gcm = gcm_of;
  new_gcm-nil = refl;
  read_random = λ n. ok (zeros n);
  length-read_random = length-random;
  nonce_size = λ g. 2;
  seal = λ g n t. 9 ∷ t;
  open_sealed = λ g n t. unmark t;
  open-seal = λ g n t e. refl;
}

p-not-q : codes "p" ≢ codes "q"
unfolding str_eq
p-not-q e = cc ((str_eq_iff (codes "p") (codes "q")).1 e)

-- Every step of a start succeeds.
abbrev pub all_well : Outcomes
all_well = record {
  config = none;
  swarm_key = none;
  libp2p = none;
  blockstore = none;
  replication = λ o. none;
}

abbrev scanner : DiscoveryService
scanner = new_discovery_service (codes "q") 1 2 [] empty_matrix

abbrev advertiser : DiscoveryService
advertiser = new_discovery_service (codes "p") 1 2 [] empty_matrix

encounter_example :
    (a1 b1 a2 b2 : DiscoveryService) × (advertiser_peer_different_status 5 false
        (codes "q")
        advertiser
      ≡ a1)
    × (on_connection_success 8
          (codes "p")
          4
          54
          2412
          (discovery_peer_different_status 5 (codes "n") (codes "w") (codes "p") scanner)
        ≡ b1)
    × (hotspot_on a1.calls ≡ true)
    × (a1.is_host ≡ true)
    × (b1.calls ≡ wifi_connect (codes "n") (codes "w") (codes "p") ∷ [])
    × (b1.connected ≡ true)
    × (agreed (codes "p") (codes "q") (codes "f") 1 a1 ≡ watching a2)
    × (agreed (codes "q") (codes "p") (codes "f") 3 b1 ≡ watching b2)
    × (a2.calls ≡ hotspot_stop ∷ hotspot_start ∷ [])
    × (hotspot_on a2.calls ≡ false)
    × (a2.is_host ≡ false)
    × (b2.calls ≡ wifi_disconnect ∷ wifi_connect (codes "n") (codes "w") (codes "p") ∷ [])
    × (b2.connected ≡ false)
    × (b2.matrix
        ≡ wifi_connected 8 (codes "p") 4 54 2412 (ble_discovered 5 (codes "p") empty_matrix))
    × ((discovery_peer_different_status 60 (codes "n") (codes "w") (codes "p") b2).calls
        ≡ wifi_connect (codes "n") (codes "w") (codes "p") ∷ b2.calls)
unfolding new_discovery_service
encounter_example =
    encounter (codes "p") (codes "q") (codes "f") (codes "n") (codes "w") 5 8 4 54 2412 60 1 3
      advertiser scanner p-not-q (omega arith) refl refl refl refl
