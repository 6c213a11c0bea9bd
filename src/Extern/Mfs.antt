-- ===== src/Extern/Mfs.antt =====
-- The mutable file system over a DAG that the adder builds directories in: go-mfs, with the nodes of
-- go-unixfs that it is given.
use ipfs_lite.Prelude.{◌≡◌, ◌<◌, ℕ, Bool, List, Option, some, Str, Result, ok}
use ipfs_lite.Prelude.Io.{Io}
use ipfs_lite.Extern.Dag.{Dag, DagNode}

-- What `mfs.FSNode` may be.
pub data FsKind : Type 0 where
  file directory unrecognized : FsKind

-- The calls on a root: `Mkdir` with its parents, `PutNode`, `Flush`, `FlushMemFree` and `Close`.
pub data Call : Type 0 where
  mkdir : Str → Call
  put_node : Str → DagNode → Call
  flush flush_mem_free close : Call

-- The node is there and is read as the content.
abbrev pub Reads : (dg : Dag) → DagNode → Str → dg.World → Type 0
Reads dg n content w = (dg.get_node n.cid w ≡ ok n) × (dg.read_node n w ≡ ok content)

pub record Mfs (dg : Dag) : Type 1 where
  pub Root : Type 0
  pub FsNode : Type 0
  -- an empty directory with a CID builder, as the root of a file system
  pub new_root : dg.Prefix → Io dg.World Root
  pub call : dg.Prefix → Call → Io (Root × dg.World) (Unit {0})
  -- `GetDirectory`, `ListNames`, `Child`, `GetNode`
  pub get_directory : Root → FsNode
  pub kind : FsNode → FsKind
  pub list_names : FsNode → dg.World → Result (List Str)
  pub child : FsNode → Str → dg.World → Result FsNode
  pub fs_node : FsNode → Io dg.World DagNode
  -- the two layouts on a buffered DAG (trickle or not), its `Commit`, and `Add` to the DAG
  pub buffered_layout : Bool → dg.Builder → Io dg.World DagNode
  pub commit : Io dg.World (Unit {0})
  pub add_node : DagNode → Io dg.World (Unit {0})
  -- `unixfs.SymlinkData` in a node with a CID builder; the node under a `posinfo.FilestoreNode`
  pub symlink_node : dg.Prefix → Str → Result DagNode
  pub under_filestore : DagNode → DagNode
  -- `Size` of a node
  pub size : DagNode → Result ℕ
  -- The node that stands at a path. No call takes away what stands in a root, a node that was put is
  -- there, and nothing here takes content from the DAG.
  pub at : Str → Root → Option DagNode
  pub at-put_node :
      (p : dg.Prefix) (q : Str) (n : DagNode) (s s' : Root × dg.World)
      → call p (put_node q n) s ≡ (ok tt, s')
      → at q s'.0 ≡ some n
  pub at-call :
      (p : dg.Prefix) (k : Call) (q : Str) (n : DagNode) (s : Root × dg.World)
      → at q s.0 ≡ some n
      → at q (call p k s).1.0 ≡ some n
  pub reads-call :
      (p : dg.Prefix) (k : Call) (n : DagNode) (c : Str) (s : Root × dg.World)
      → Reads dg n c s.1
      → Reads dg n c (call p k s).1.1
  pub reads-new_root :
      (p : dg.Prefix) (n : DagNode) (c : Str) (w : dg.World)
      → Reads dg n c w
      → Reads dg n c (new_root p w).1
  pub reads-fs_node :
      (f : FsNode) (n : DagNode) (c : Str) (w : dg.World)
      → Reads dg n c w
      → Reads dg n c (fs_node f w).1
  pub reads-buffered_layout :
      (trickle : Bool) (b : dg.Builder) (n : DagNode) (c : Str) (w : dg.World)
      → Reads dg n c w
      → Reads dg n c (buffered_layout trickle b w).1
  pub reads-commit :
      (n : DagNode) (c : Str) (w : dg.World) → Reads dg n c w → Reads dg n c (commit w).1
  pub reads-add_node :
      (m n : DagNode) (c : Str) (w : dg.World) → Reads dg n c w → Reads dg n c (add_node m w).1
  -- What was laid out and committed is read back.
  pub reads-laid_out :
      (content spec : Str) (raw nocopy trickle : Bool) (p : dg.Prefix) (ch : dg.Chunks)
      (b : dg.Builder) (n : DagNode) (w w1 w2 : dg.World)
      → dg.from_string content spec ≡ ok ch
      → dg.new_builder raw nocopy p ch ≡ ok b
      → buffered_layout trickle b w ≡ (ok n, w1)
      → commit w1 ≡ (ok tt, w2)
      → Reads dg (under_filestore n) content w2
  -- A node stands above its children, as deep as it is.
  pub depth : FsNode → ℕ
  pub depth-child :
      (f g : FsNode) (name : Str) (w : dg.World) → child f name w ≡ ok g → depth g < depth f
