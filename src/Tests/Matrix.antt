-- ===== src/Tests/Matrix.antt =====
-- The theorems on the matrices at concrete calls.
use ipfs_lite.Prelude.{◌≡◌, refl, ◌≢◌, arith, true, [], ◌∷◌, ok, codes, Str, str_eq, lookup, insert}
use ipfs_lite.Matrix.Node.{
  NodeMatrix, node_of, connect_node, new_node, ble, connected, disconnected, step, ble_discovered,
  wifi_connected, node_connected, node_disconnected, with_node, see_ble, disconnect_node,
}
use ipfs_lite.Matrix.Node.Session.{after_session, session_recorded}
use ipfs_lite.Matrix.Node.History.{Trace, here, next, IsCounted, Reach-IsCounted}
use ipfs_lite.Matrix.Keeper.{empty_matrix}
use ipfs_lite.Tests.Worlds.{whole_floats}
use ipfs_lite.Tests.Codec.{json_of, list, pair, number}
use ipfs_lite.Tests.Codecs.{node_matrix, content_matrix}

abbrev alice : Str
alice = codes "QmAlice"

abbrev bob : Str
bob = codes "QmBob"

-- Alice is connected since the second 100.
abbrev busy : NodeMatrix
busy = record {
  total_uptime = 60;
  nodes_discovered =
      (
        alice,
        record new_node {
          connection_alive = true;
          connection_success_count = 1;
          ipfs_connected_at = 100;
        },
      )
      ∷ [];
}

busy_later :
    step 130 alice (disconnected 130) busy
    ≡ ok (record busy {
      nodes_discovered =
          (
            alice,
            record new_node {
              connection_success_count = 1;
              last_successful_connection_duration = 30;
              connection_history =
                  record {
                    ble_discovered_at = 0;
                    wifi_connected_at = 0;
                    rssi = 0;
                    speed = 0;
                    frequency = 0;
                    ipfs_connected_at = 100;
                    disconnected_at = 130;
                  }
                  ∷ [];
            },
          )
          ∷ [];
    })
unfolding step node_disconnected disconnect_node lookup insert str_eq
busy_later = refl

bob_not_alice : bob ≢ alice
bob_not_alice e = cc

session_recorded_example :
    node_disconnected 39 40 bob
      (node_connected 20 bob (wifi_connected 15 bob 4 54 2412 (ble_discovered 10 bob empty_matrix)))
    ≡ ok (record {
      total_uptime = 0;
      nodes_discovered = (bob, after_session 10 15 20 39 40 4 54 2412 new_node) ∷ [];
    })
unfolding lookup insert
session_recorded_example =
    session_recorded bob 10 15 20 39 40 4 54 2412 empty_matrix refl (omega arith)

-- Bob is discovered, connects twice and disconnects once.
abbrev twice : Trace
twice = (bob, disconnected 41) ∷ (bob, connected) ∷ (bob, connected) ∷ (bob, ble) ∷ []

abbrev after_twice : NodeMatrix
after_twice = record {
  total_uptime = 0;
  nodes_discovered =
      (bob, disconnect_node 40 41 (connect_node 30 (connect_node 20 (see_ble 10 new_node)))) ∷ [];
}

Reach-IsCounted_example : IsCounted bob twice (node_of bob empty_matrix) (node_of bob after_twice)
unfolding step ble_discovered node_connected node_disconnected with_node lookup insert str_eq
    see_ble
Reach-IsCounted_example =
    Reach-IsCounted bob empty_matrix after_twice twice
      (record { delayed = tt; cleared = λ _. refl })
      (next 40 bob (disconnected 41)
        (next 30 bob connected (next 20 bob connected (next 10 bob ble here refl) refl) refl) refl)
