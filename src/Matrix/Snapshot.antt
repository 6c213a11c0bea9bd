-- ===== src/Matrix/Snapshot.antt =====
-- What a caller sees of the keeper, internal/matrix/matrix.go: copies of the two matrices.
use ipfs_lite.Prelude.{Dict, Int64}
use ipfs_lite.Matrix.Content.{ContentMatrix}
use ipfs_lite.Matrix.Keeper.{MatrixKeeper}
use ipfs_lite.Matrix.Node.{DiscoveredNodeMatrix}

-- The map that is shown of the measurements.
pub record Matrices (F : Type 0) : Type 0 where
  pub total_uptime : Int64
  pub node_matrix : Dict DiscoveredNodeMatrix
  pub content_matrix : Dict (ContentMatrix F)

-- `NodeMatrixSnapshot`, `ContentMatrixSnapshot` and `GetTotalUptime`: copies.
unfoldable pub snapshots : {F : Type 0} → MatrixKeeper F → Matrices F
snapshots k = record {
  total_uptime = k.node_matrix.total_uptime;
  node_matrix = k.node_matrix.nodes_discovered;
  content_matrix = k.content_matrix;
}
