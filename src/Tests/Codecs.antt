-- ===== src/Tests/Codecs.antt =====
-- The serialisations of the program's records, for the tests.
use ipfs_lite.Prelude.{ℕ, refl, Bool, List, Str}
use ipfs_lite.Tests.Codec.{Codec, number, boolean, pair, list, through}
use ipfs_lite.Matrix.Node.{ConnectionInfo, DiscoveredNodeMatrix, NodeMatrix}
use ipfs_lite.Matrix.Content.{ContentMatrix}
use ipfs_lite.Repo.StateKeeper.{State}
use ipfs_lite.Repo.Config.{Config}
use ipfs_lite.Replication.Types.{ContentMetatag, GroupMetadata, Link}

abbrev Two : Type 0
Two = ℕ × ℕ

abbrev Four : Type 0
Four = Two × Two

abbrev info_of : Four × (Two × ℕ) → ConnectionInfo
info_of t = record {
  ble_discovered_at = t.0.0.0;
  wifi_connected_at = t.0.0.1;
  rssi = t.0.1.0;
  speed = t.0.1.1;
  frequency = t.1.0.0;
  ipfs_connected_at = t.1.0.1;
  disconnected_at = t.1.1;
}

instance abbrev pub connection_info : Codec ConnectionInfo
connection_info =
    through
      (λ c. (
        ((c.ble_discovered_at, c.wifi_connected_at), (c.rssi, c.speed)),
        ((c.frequency, c.ipfs_connected_at), c.disconnected_at),
      ))
      info_of (λ x. refl)

abbrev NodeFields : Type 0
NodeFields = (Bool × (Two × Two)) × ((Four × Two) × (List ℕ × List ConnectionInfo))

abbrev node_of_fields : NodeFields → DiscoveredNodeMatrix
node_of_fields t = record {
  connection_alive = t.0.0;
  connection_success_count = t.0.1.0.0;
  connection_failure_count = t.0.1.0.1;
  last_successful_connection_duration = t.0.1.1.0;
  ble_discovered_at = t.0.1.1.1;
  wifi_connected_at = t.1.0.0.0.0;
  rssi = t.1.0.0.0.1;
  speed = t.1.0.0.1.0;
  frequency = t.1.0.0.1.1;
  ipfs_connected_at = t.1.0.1.0;
  discovery_delays = t.1.1.0;
  connection_history = t.1.1.1;
}

instance abbrev pub discovered_node : Codec DiscoveredNodeMatrix
discovered_node =
    through {B = NodeFields}
      (λ n. (
        (
          n.connection_alive,
          (
            (n.connection_success_count, n.connection_failure_count),
            (n.last_successful_connection_duration, n.ble_discovered_at),
          ),
        ),
        (
          (((n.wifi_connected_at, n.rssi), (n.speed, n.frequency)), (n.ipfs_connected_at, 0)),
          (n.discovery_delays, n.connection_history),
        ),
      ))
      node_of_fields (λ x. refl)

instance abbrev pub node_matrix : Codec NodeMatrix
node_matrix =
    through {B = ℕ × List (Str × DiscoveredNodeMatrix)} (λ m. (m.total_uptime, m.nodes_discovered))
      (λ t. record { total_uptime = t.0; nodes_discovered = t.1 }) (λ x. refl)

abbrev ContentFields : Type 0
ContentFields = (Str × Two) × (Two × List Str)

instance abbrev pub content_matrix : Codec (ContentMatrix ℕ)
content_matrix =
    through {B = ContentFields}
      (λ c. (
        (c.tag, (c.size, c.avg_speed)),
        ((c.download_started_at, c.download_finished_at), c.provided_by),
      ))
      (λ t. record {
        tag = t.0.0;
        size = t.0.1.0;
        avg_speed = t.0.1.1;
        download_started_at = t.1.0.0;
        download_finished_at = t.1.0.1;
        provided_by = t.1.1;
      })
      (λ x. refl)

instance abbrev pub state : Codec (State (List Str))
state =
    through {B = List Str × Bool} (λ s. (s.filter, s.membership))
      (λ t. record { filter = t.0; membership = t.1 }) (λ x. refl)

instance abbrev pub group_metadata : Codec GroupMetadata
group_metadata =
    through {B = (Str × Str) × ((Str × Str) × Bool)}
      (λ g. ((g.name, g.owner_id), ((g.owner_public_key, g.group_id), g.is_open)))
      (λ t. record {
        name = t.0.0;
        owner_id = t.0.1;
        owner_public_key = t.1.0.0;
        group_id = t.1.0.1;
        is_open = t.1.1;
      })
      (λ x. refl)

instance abbrev pub link : Codec Link
link =
    through {B = Str × (ℕ × Str)} (λ l. (l.name, (l.size, l.hash)))
      (λ t. record { name = t.0; size = t.1.0; hash = t.1.1 }) (λ x. refl)

instance abbrev pub content_metatag : Codec ContentMetatag
content_metatag =
    through {B = ((Str × ℕ) × (Str × Str)) × ((Str × ℕ) × ((Str × Bool) × (Str × List Link)))}
      (λ m. (
        ((m.tag, m.size), (m.content_type, m.name)),
        ((m.hash, m.timestamp), ((m.owner, m.is_encrypted), (m.group, m.links))),
      ))
      (λ t. record {
        tag = t.0.0.0;
        size = t.0.0.1;
        content_type = t.0.1.0;
        name = t.0.1.1;
        hash = t.1.0.0;
        timestamp = t.1.0.1;
        owner = t.1.1.0.0;
        is_encrypted = t.1.1.0.1;
        group = t.1.1.1.0;
        links = t.1.1.1.1;
      })
      (λ x. refl)

instance abbrev pub config : Codec Config
config =
    through {B = (Str × Str) × (List Str × (List Str × Str))}
      (λ c. (
        (c.identity.peer_id, c.identity.priv_key),
        (c.addresses.swarm, (c.bootstrap, c.swarm_port)),
      ))
      (λ t. record {
        identity = record { peer_id = t.0.0; priv_key = t.0.1 };
        addresses = record { swarm = t.1.0 };
        bootstrap = t.1.1.0;
        swarm_port = t.1.1.1;
      })
      (λ x. refl)
