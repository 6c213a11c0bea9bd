-- ===== src/Peer/Dirs/Stored.antt =====
-- The store over the node itself.
use ipfs_lite.Prelude.{◌≡◌, ◌≢◌, ℕ, List, Str, Int64, Result, ok, false}
use ipfs_lite.Extern.Crdt.{Crdt}
use ipfs_lite.Extern.Dag.{Dag}
use ipfs_lite.Extern.Json.{Json}
use ipfs_lite.Extern.Keys.{Keys}
use ipfs_lite.Extern.Mfs.{Mfs}
use ipfs_lite.Peer.Adder.{Tree}
use ipfs_lite.Peer.Delete.Exactly.{RootOrLink, delete_file_exactly}
use ipfs_lite.Peer.Dirs.{node_contents}
use ipfs_lite.Replication.Manager.{find_tag}
use ipfs_lite.Replication.Types.{ContentMetatag, GroupMetadata, Link}
use ipfs_lite.Store.{Info, add, get, delete}
use ipfs_lite.Store.Laws.{get-add, get-delete}

module _ (db : Crdt) (ks : Keys) (dg : Dag) (mf : Mfs dg)
    (serial_file : Str → dg.World → Result Tree) (fuel : ℕ) (decode_id : Str → Result Str)
    ⦃gj : Json GroupMetadata⦄ ⦃mj : Json ContentMetatag⦄ (host : Str) (key : ks.PrivKey) where
  -- The node fills the store's interface of contents: content that is added under a tag through
  -- AddFile and the replicated index is what getting the tag returns, with the information it was
  -- added with; and when the tag is then deleted, no getting of the tag succeeds, and of the blocks of
  -- the node's DAG exactly the root and the root's links of what the tag names are gone, but for
  -- identity hashes.
  pub added_then_deleted :
      (content : Str) (info : Info) (now : Int64) (w w1 w2 : dg.World × db.World) (id : Str)
      (again : Str × Info)
      → add db ks (node_contents dg mf serial_file fuel decode_id) host key content info now w
        ≡ (ok id, w1)
      → delete db (node_contents dg mf serial_file fuel decode_id) info.tag w1 ≡ (ok tt, w2)
      → (get db (node_contents dg mf serial_file fuel decode_id) info.tag w1 ≡ ok (content, info))
        × (get db (node_contents dg mf serial_file fuel decode_id) info.tag w2 ≢ ok again)
        × ((meta : ContentMetatag) × (links : List Link) × (find_tag db info.tag w1.1 ≡ ok meta)
            × (dg.get_links meta.hash w1.0 ≡ ok links)
            × ((j : Str)
                → dg.is_inline (dg.block_of j) ≡ false
                → RootOrLink dg meta.hash links j
                → dg.has_block j w2.0 ≡ ok false)
            × ((j : Str)
                → (RootOrLink dg meta.hash links j → ⊥)
                → dg.has_block j w2.0 ≡ dg.has_block j w1.0))
  added_then_deleted content info now w w1 w2 id again h h' =
      let ct = node_contents dg mf serial_file fuel decode_id in
      let got = get-add db ks ct host key content info now w w1 id h in
      let (meta, found, removed, gone) = get-delete db ks ct host key info.tag w1 w2 again h' in
      let (links, there, linked, absent, others) =
        delete_file_exactly dg meta.hash w1.0 w2.0 removed in
      (got, gone, (meta, links, found, linked, absent, others))
