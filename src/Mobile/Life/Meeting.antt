-- ===== src/Mobile/Life/Meeting.antt =====
-- A peer that connects and disconnects: what the notifier records, sends and tells.
use ipfs_lite.Prelude.{
  sub64, add64, arith, ◌≡◌, ◌≢◌, refl, ap, ◌∙◌, inl, inr, true, some, List, [], ◌∷◌, Str, Dict,
  lookup, insert, lookup-insert_self, lookup-insert_ne, In, Int64, Result, ok, err, panic, ◌==◌,
  Bool-cases, ◌++◌, if◌then◌else◌,
}
use ipfs_lite.Extern.Crdt.{Crdt}
use ipfs_lite.Extern.Keys.{Keys}
use ipfs_lite.Extern.Json.{Json}
use ipfs_lite.Matrix.Content.{ContentMatrix}
use ipfs_lite.Matrix.Node as Matrix
use ipfs_lite.Matrix.Node.{
  delay_of, DiscoveredNodeMatrix, NodeMatrix, node_of, or_new, connect_node, disconnect_node,
  session_of, node_connected, node_disconnected,
}
use ipfs_lite.Mobile.Life.{
  false, Library, Notice, peer_connected, peer_disconnected, tell, with_matrix, on_connected,
  on_disconnected,
}
use ipfs_lite.Peer.Start.{Node}
use ipfs_lite.Replication.Manager.{find_tag, send, unfinished}
use ipfs_lite.Replication.Manager.Listed.{unfinished_sent}
use ipfs_lite.Replication.Types.{ContentMetatag, GroupMetadata}

-- The matrix of the peers in a library.
abbrev pub matrix_of : {Store Filter F : Type 0} → Library Store Filter F → NodeMatrix
matrix_of h = h.comm.repo.m_keeper.node_matrix

-- The entry of a peer that has connected: one success more, the time, the mark and, where the peer was
-- discovered, the delay since, of which zero is recorded as one second.
abbrev pub after_connection : Int64 → DiscoveredNodeMatrix → DiscoveredNodeMatrix
after_connection up n = record n {
  connection_success_count = add64 n.connection_success_count 1;
  ipfs_connected_at = up;
  connection_alive = true;
  discovery_delays =
      if n.ble_discovered_at == 0
      then n.discovery_delays
      else n.discovery_delays
        ++ (if sub64 up n.ble_discovered_at == 0 then 1 else sub64 up n.ble_discovered_at) ∷ [];
}

-- The entry of a peer that has disconnected again: the duration, one history entry with the times and
-- the link of the session, and no mark or session field.
abbrev pub after_disconnection : Int64 → Int64 → Int64 → DiscoveredNodeMatrix → DiscoveredNodeMatrix
after_disconnection up ended down n = record (after_connection up n) {
  last_successful_connection_duration = sub64 ended up;
  connection_history =
      n.connection_history
      ++ (record {
        ble_discovered_at = n.ble_discovered_at;
        wifi_connected_at = n.wifi_connected_at;
        rssi = n.rssi;
        speed = n.speed;
        frequency = n.frequency;
        ipfs_connected_at = up;
        disconnected_at = down;
      })
        ∷ [];
  connection_alive = false;
  ble_discovered_at = 0;
  wifi_connected_at = 0;
  rssi = 0;
  speed = 0;
  frequency = 0;
  ipfs_connected_at = 0;
}

module _ (db : Crdt) ⦃mj : Json ContentMetatag⦄ {F : Type 0} where
  -- Starting the unfinished downloads comes to its end.
  unfinished-ok :
      (m : Dict (ContentMatrix F)) (w : db.World)
      → ((t : Str) → find_tag db t w ≢ panic)
      → (sent : List ContentMetatag) × (unfinished db m w ≡ ok sent)
  unfolding unfinished send
  unfinished-ok [] w calm = ([], refl)
  unfinished-ok ((hash, c) ∷ m) w calm =
      let (rest, e) = unfinished-ok m w calm in
      elim (Bool-cases (c.download_finished_at == 0)) [
        | inl running ↦ go rest e running (find_tag db c.tag w) refl
        | inr done ↦ (rest, ground (arith, e, done))
      ]
    where
      go :
          (rest : List ContentMetatag)
          → unfinished db m w ≡ ok rest
          → (c.download_finished_at == 0) ≡ true
          → (f : Result ContentMetatag) → find_tag db c.tag w ≡ f
          → (sent : List ContentMetatag) × (unfinished db ((hash, c) ∷ m) w ≡ ok sent)
      go rest e running (ok meta) ef = (meta ∷ rest, ground (arith, e, running, ef))
      go rest e running (err x) ef = (rest, ground (arith, e, running, ef))
      go rest e running panic ef = absurd (calm c.tag ef)

module _ (db : Crdt) (ks : Keys) ⦃gj : Json GroupMetadata⦄ ⦃mj : Json ContentMetatag⦄
    {Store Filter F : Type 0} where
  -- A peer connects to a node that was started, and disconnects later. The notifier returns both
  -- times. It first sends to the download channel the metadata of every content whose download has
  -- not finished and whose tag is found, counts a success, records the delay since the discovery and
  -- marks the peer as connected; then it sets the duration, adds one entry to the peer's history and
  -- clears the mark and the session's fields. It tells the application both, and the
  -- other peers and the downloads in the matrix stay. Reading the store does not panic.
  pub peer_session :
      (h : Library Store Filter F) (n : Node) (calls : List Notice) (peer : Str)
      (up ended down : Int64) (w : db.World)
      → h.comm.node ≡ some n
      → h.hook ≡ some calls
      → ((t : Str) → find_tag db t w ≢ panic)
      → (sent : List ContentMetatag) × (h1 h2 : Library Store Filter F) × (on_connected db up peer w
            h
          ≡ (ok sent, h1))
        × (on_disconnected ended down peer h1 ≡ ok h2)
        × ((hash : Str) (c : ContentMatrix F) (meta : ContentMetatag)
            → In (hash, c) h.comm.repo.m_keeper.content_matrix
            → c.download_finished_at ≡ 0
            → find_tag db c.tag w ≡ ok meta
            → In meta sent)
        × (node_of peer (matrix_of h1) ≡ after_connection up (node_of peer (matrix_of h)))
        × (node_of peer (matrix_of h2)
            ≡ after_disconnection up ended down (node_of peer (matrix_of h)))
        × ((q : Str)
            → q ≢ peer
            → lookup q (matrix_of h2).nodes_discovered ≡ lookup q (matrix_of h).nodes_discovered)
        × (h2.comm.repo.m_keeper.content_matrix ≡ h.comm.repo.m_keeper.content_matrix)
        × (h2.hook ≡ some (peer_disconnected peer ∷ peer_connected peer ∷ calls))
  unfolding on_connected on_disconnected with_matrix tell node_connected node_disconnected
      Matrix.with_node connect_node disconnect_node delay_of
  peer_session h n calls peer up ended down w started hooked calm =
      let (sent, es) = unfinished-ok db h.comm.repo.m_keeper.content_matrix w calm in
      let m = matrix_of h in
      let up_entry = after_connection up (node_of peer m) in
      let down_entry = after_disconnection up ended down (node_of peer m) in
      let m1 : NodeMatrix = record m {
        nodes_discovered = insert peer up_entry m.nodes_discovered;
      } in
      let m2 : NodeMatrix = record m {
        nodes_discovered = insert peer down_entry m1.nodes_discovered;
      } in
      let h1 : Library Store Filter F = record (with_matrix m1 h) {
        hook = some (peer_connected peer ∷ calls);
      } in
      let h2 : Library Store Filter F = record (with_matrix m2 h1) {
        hook = some (peer_disconnected peer ∷ peer_connected peer ∷ calls);
      } in
      let there = lookup-insert_self peer up_entry m.nodes_discovered in
      (
        sent,
        h1,
        h2,
        ground (arith, es, started, hooked),
        ground (arith, there),
        λ hash c meta i z found.
            unfinished_sent db ks hash c h.comm.repo.m_keeper.content_matrix meta w sent i z found
              es,
        ap or_new there,
        ap or_new (lookup-insert_self peer down_entry m1.nodes_discovered),
        λ q ne.
            lookup-insert_ne peer q down_entry m1.nodes_discovered ne
            ∙ lookup-insert_ne peer q up_entry m.nodes_discovered ne,
        refl,
        refl,
      )
