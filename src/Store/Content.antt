-- ===== src/Store/Content.antt =====
-- The content operations of a node that the store calls, as an interface: Peer of internal/ipfs has
-- AddFile, AddDir, GetFile and DeleteFile.
use ipfs_lite.Prelude.{◌≡◌, Str, Result, ok}
use ipfs_lite.Prelude.Io.{Io}
use ipfs_lite.Extern.Dag.{DagNode}

pub record Contents : Type 1 where
  pub World : Type 0
  pub add_file : Str → Io World DagNode
  pub add_dir : Str → Io World DagNode
  pub get_file : Str → World → Result Str
  pub delete_file : Str → Io World (Unit {0})
  -- `cid.Cid.String` and `peer.Decode`
  pub cid_string : Str → Str
  pub decode_id : Str → Result Str
  pub get-add_file :
      (content : Str) (n : DagNode) (w w' : World)
      → add_file content w ≡ (ok n, w')
      → get_file n.cid w' ≡ ok content
