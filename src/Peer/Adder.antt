-- ===== src/Peer/Adder.antt =====
-- The adder of files and directories, internal/ipfs/adder.go.
pub mod Keeping
pub mod Bounds
pub mod Standing
pub mod Trees
pub mod Output
use ipfs_lite.Prelude.{
  ◌&&◌, ◌≡◌, ◌≤◌, ℕ, zero, suc, Bool, true, false, Option, none, some, List, [], ◌∷◌, ◌++◌, codes,
  Str, str_eq, Int64, add64, leb, Error, Result, ok, err, panic, if◌then◌else◌,
}
use ipfs_lite.Prelude.Io.{Io, pure, fail, lift, gets, ◌>>=◌, ◌>>◌}
use ipfs_lite.Prelude.Paths.{join, dir}
use ipfs_lite.Extern.Dag.{Dag, DagNode}
use ipfs_lite.Extern.Mfs.{
  Mfs, FsKind, file, directory, unrecognized, Call, mkdir, put_node, flush, flush_mem_free, close,
}

-- `files.Node`: a directory with the iterator over its entries, which may end with an error.
mutual
  pub data Tree : Type 0 where
    directory_tree : Entries → Tree
    symlink : Str → Tree
    file_with : Str → Tree
    other_tree : Tree

  pub data Entries : Type 0 where
    ended : Option Error → Entries
    entry : Str → Tree → Entries → Entries

unfoldable pub is_directory : Tree → Bool
is_directory (directory_tree es) = true
is_directory (symlink target) = false
is_directory (file_with content) = false
is_directory other_tree = false

abbrev pub live_cache_size : ℕ
live_cache_size = 0x4_0000

-- `coreiface.AddEvent` of a node, with the CID of its path.
pub record AddEvent : Type 0 where
  pub path : Str
  pub name : Str
  pub size : ℕ

module _ (dg : Dag) (mf : Mfs dg) where
  -- The switches of an `Adder`.
  pub record Adder : Type 0 where
    pub trickle : Bool
    pub raw_leaves : Bool
    pub silent : Bool
    pub no_copy : Bool
    pub chunker : Str
    pub cid_builder : dg.Prefix
    -- the `Sync` of the DAG service, where it has one
    pub sync : Option (Io dg.World (Unit {0}))

  -- What an `Adder` changes: its root, the count of its live nodes and what it has sent to its
  -- channel, where it has one; with the DAG.
  pub record Adding : Type 0 where
    pub root : Option mf.Root
    pub live_nodes : Int64
    pub out : Option (List AddEvent)
    pub world : dg.World

module _ {dg : Dag} {mf : Mfs dg} (adder : Adder dg mf) where
  open dg use {World}
  open mf use {Root, FsNode}

  abbrev pub Add : Type 0 → Type 0
  Add A = Io (Adding dg mf) A

  -- A call on the DAG, and one on a root with it.
  unfoldable pub on_dag : {A : Type 0} → Io World A → Add A
  on_dag m s = let (r, w) = m s.world in (r, record s { world = w })

  unfoldable pub on_root : {A : Type 0} → Io (Root × World) A → Add A
  on_root m s = elim s.root [
    | some root ↦
        let (r, (root', w)) = m (root, s.world) in (r, record s { root = some root'; world = w })
    | none ↦ (panic, s)
  ]

  -- `mfsRoot`: the root is made where there is none.
  unfoldable pub mfs_root : Add (Unit {0})
  unfolding on_dag
  mfs_root s = elim s.root [
    | some root ↦ (ok tt, s)
    | none ↦
        (on_dag (mf.new_root adder.cid_builder) >>= λ root s'.
        (ok tt, record s' { root = some root }))
          s
  ]

  -- `mfsRoot`, and a call on what it returns
  unfoldable pub call_root : Call → Add (Unit {0})
  unfolding mfs_root on_root
  call_root k = mfs_root >> on_root (mf.call adder.cid_builder k)

  -- `add`
  unfoldable pub add : Str → Add DagNode
  unfolding on_dag
  add content = do
    chunks ← lift (dg.from_string content adder.chunker)
    b ← lift (dg.new_builder adder.raw_leaves adder.no_copy adder.cid_builder chunks)
    n ← on_dag (mf.buffered_layout adder.trickle b)
    on_dag mf.commit
    pure n

  -- `outputDagnode`, with `getOutput`
  unfoldable pub output_dagnode : Str → DagNode → Add (Unit {0})
  output_dagnode name n s = elim s.out [
    | none ↦ (ok tt, s)
    | some sent ↦ elim (mf.size n) [
      | ok size ↦
          let event : AddEvent = record { path = n.cid; name = name; size = size } in
          (ok tt, record s { out = some (sent ++ (event ∷ [])) })
      | err e ↦ (err e, s)
      | panic ↦ (panic, s)
    ]
  ]

  -- The path that `addNode` puts a node at.
  unfoldable pub place : Str → DagNode → Str
  place path n = if str_eq path [] then dg.cid_string n.cid else path

  -- `addNode`
  unfoldable pub add_node : DagNode → Str → Add (Unit {0})
  unfolding call_root output_dagnode place
  add_node n path =
      let p = place path n in
      let n' = mf.under_filestore n in
      do
        mfs_root
        if str_eq (dir p) (codes ".") then pure tt else call_root (mkdir (dir p))
        call_root (put_node p n')
        if adder.silent then pure tt else output_dagnode p n'

  -- `addSymlink`
  unfoldable pub add_symlink : Str → Str → Add (Unit {0})
  unfolding add_node on_dag
  add_symlink path target = do
    n ← lift (mf.symlink_node adder.cid_builder target)
    on_dag (mf.add_node n)
    add_node n path

  -- `addFile`, for an adder that reports no progress
  unfoldable pub add_file : Str → Str → Add (Unit {0})
  unfolding add add_node
  add_file path content = add content >>= λ n. add_node n path

  -- The start of `addFileNode`: the cache of the root is freed where it is full.
  unfoldable pub free_when : Bool → Add (Unit {0})
  unfolding call_root
  free_when true = call_root flush_mem_free >> λ s. (ok tt, record s { live_nodes = 0 })
  free_when false = pure tt

  unfoldable pub count_live : Add (Unit {0})
  unfolding free_when
  count_live s =
      (free_when (leb live_cache_size s.live_nodes) >> λ s'.
      (ok tt, record s' { live_nodes = add64 s'.live_nodes 1 }))
        s

  -- The start of `addDir`: the directory is made, unless it is the root.
  unfoldable pub enter_dir : Str → Bool → Add (Unit {0})
  unfolding call_root
  enter_dir path toplevel = if toplevel && str_eq path [] then pure tt else call_root (mkdir path)

  unfoldable mutual
    unfolding count_live add_symlink add_file enter_dir

    -- `addFileNode`, with `addDir` in its first clause
    pub add_file_node : Str → Tree → Bool → Add (Unit {0})
    add_file_node path (directory_tree es) toplevel =
        count_live >> enter_dir path toplevel >> add_entries path es
    add_file_node path (symlink target) toplevel = count_live >> add_symlink path target
    add_file_node path (file_with content) toplevel = count_live >> add_file path content
    add_file_node path other_tree toplevel = count_live >> fail Error.unknown_file_type

    -- The loop of `addDir`.
    pub add_entries : Str → Entries → Add (Unit {0})
    add_entries path (ended none) = pure tt
    add_entries path (ended (some e)) = fail e
    add_entries path (entry name tree es) =
        add_file_node (join path name) tree false >> add_entries path es

  -- The children of a directory, in the loop of `outputDirs`.
  unfoldable pub output_children :
      (Str → FsNode → Adding dg mf → Option (Result (Unit {0}) × Adding dg mf))
      → Str
      → FsNode
      → List Str
      → Adding dg mf
      → Option (Result (Unit {0}) × Adding dg mf)
  output_children visit path f [] s = some (ok tt, s)
  output_children visit path f (name ∷ names) s = elim (mf.child f name s.world) [
    | ok g ↦ elim (visit (join path name) g s) [
      | none ↦ none
      | some (ok u, s') ↦ output_children visit path f names s'
      | some (err e, s') ↦ some (err e, s')
      | some (panic, s') ↦ some (panic, s')
    ]
    | err e ↦ some (err e, s)
    | panic ↦ some (panic, s)
  ]

  -- `outputDirs`; `none` where the fuel ends before the directories do. Its `Uncache` only frees
  -- memory.
  unfoldable pub output_dirs :
      ℕ → Str → FsNode → Adding dg mf → Option (Result (Unit {0}) × Adding dg mf)
  unfolding output_children output_dagnode on_dag
  output_dirs zero path f s = none
  output_dirs (suc fuel) path f s = elim (mf.kind f) [
    | file ↦ some (ok tt, s)
    | directory ↦ elim (mf.list_names f s.world) [
      | ok names ↦ elim (output_children (output_dirs fuel) path f names s) [
        | none ↦ none
        | some (ok u, s') ↦ some ((on_dag (mf.fs_node f) >>= output_dagnode path) s')
        | some (err e, s') ↦ some (err e, s')
        | some (panic, s') ↦ some (panic, s')
      ]
      | err e ↦ some (err e, s)
      | panic ↦ some (panic, s)
    ]
    | unrecognized ↦ some (err Error.unknown_file_type, s)
  ]

  -- What `AddAll` returns the node of: the root directory, or its first child with the child's name.
  unfoldable pub swap_root : Tree → Add (FsNode × Str)
  unfolding is_directory
  swap_root tree s = elim s.root [
    | none ↦ (panic, s)
    | some root ↦
        let top = mf.get_directory root in
        if is_directory tree then (ok (top, []), s) else elim (mf.list_names top s.world) [
          | ok [] ↦ (err Error.no_child, s)
          | ok (name ∷ names) ↦ elim (mf.child top name s.world) [
            | ok g ↦ (ok (g, name), s)
            | err e ↦ (err e, s)
            | panic ↦ (panic, s)
          ]
          | err e ↦ (err e, s)
          | panic ↦ (panic, s)
        ]
  ]

  -- `AddAll`, before the output of the directories.
  unfoldable pub add_tree : Tree → Add ((FsNode × Str) × DagNode)
  unfolding add_file_node call_root on_root on_dag swap_root
  add_tree tree = do
    add_file_node [] tree true
    call_root flush
    top ← swap_root tree
    on_root (mf.call adder.cid_builder close)
    n ← on_dag (mf.fs_node top.0)
    pure (top, n)

  -- The end of `AddAll`.
  unfoldable pub synced : DagNode → Add DagNode
  unfolding on_dag
  synced n = elim adder.sync [ none ↦ pure n | some call ↦ on_dag call >> pure n ]

  -- `AddAll`, for an adder without an unlocker.
  unfoldable pub add_all : ℕ → Tree → Adding dg mf → Option (Result DagNode × Adding dg mf)
  unfolding add_tree output_dirs synced
  add_all fuel tree s =
      let (r, s1) = add_tree tree s in
      elim r [
        | ok (top, n) ↦ elim (output_dirs fuel top.1 top.0 s1) [
          | none ↦ none
          | some (ok u, s2) ↦ some (synced n s2)
          | some (err e, s2) ↦ some (err e, s2)
          | some (panic, s2) ↦ some (panic, s2)
        ]
        | err e ↦ some (err e, s1)
        | panic ↦ some (panic, s1)
      ]
