-- ===== src/Tests/Trees.antt =====
-- The file system of paths over the DAG of blocks, and the theorems on the node at concrete calls.
use ipfs_lite.Prelude.Paths.{dir, join}
use ipfs_lite.Prelude.{
  has_prefix, split_slash, split_rest, ◌≡◌, ◌≢◌, refl, inl, inr, arith, ◌<◌, ◌≤◌, Bool, true, false,
  List, [], ◌∷◌, Option, none, some, Str, Dict, lookup, insert, lookup-insert, lookup-insert_self,
  ◌⊎◌, Int64, lookup-insert_ne, str_eq, str_eq_iff, Error, Result, ok, err, In, Bool-cases, codes,
}
use ipfs_lite.Extern.Dag.{DagNode}
use ipfs_lite.Extern.Mfs.{
  Mfs, directory, Call, mkdir, put_node, flush, flush_mem_free, close, Reads,
}
use ipfs_lite.Replication.Types.{Link}
use ipfs_lite.Peer.Adder.{
  Tree, directory_tree, file_with, ended, entry, live_cache_size, Adder, Adding, add_file_node,
  add_tree, add_all,
}
use ipfs_lite.Peer.Adder.Bounds.{live_nodes_bounded}
use ipfs_lite.Peer.Adder.Output.{Put, add_all-Found}
use ipfs_lite.Peer.Adder.Trees.{files_of}
use ipfs_lite.Peer.Delete.{delete_file}
use ipfs_lite.Peer.Delete.Exactly.{RootOrLink, delete_file_exactly}
use ipfs_lite.Peer.Files.{download}
use ipfs_lite.Peer.Files.Downloading.{ReadsAll, download_ends}
use ipfs_lite.Tests.Blocks.{block_dag, leaf, lay, read-lay}

abbrev Roots : Type 0
Roots = Dict DagNode × Dict Str

-- A node is put where nothing stands; the other calls do nothing.
abbrev call_paths : Call → Roots → Result (Unit {0}) × Roots
call_paths (mkdir q) s = (ok tt, s)
call_paths (put_node q n) (r, w) = elim (lookup q r) [
  | none ↦ (ok tt, (insert q n r, w))
  | some m ↦ (err (Error.foreign 3), (r, w))
]
call_paths flush s = (ok tt, s)
call_paths flush_mem_free s = (ok tt, s)
call_paths close s = (ok tt, s)

pub at-put_paths :
    (q : Str) (n : DagNode) (s s' : Roots)
    → call_paths (put_node q n) s ≡ (ok tt, s')
    → lookup q s'.0 ≡ some n
at-put_paths q n (r, w) s' h = go (lookup q r) refl
  where
    go : (o : Option DagNode) → lookup q r ≡ o → lookup q s'.0 ≡ some n
    go none e = ground (arith, lookup-insert_self q n r)
    go (some m) e = absurd (ground arith)

pub at-call_paths :
    (k : Call) (q : Str) (n : DagNode) (s : Roots)
    → lookup q s.0 ≡ some n
    → lookup q (call_paths k s).1.0 ≡ some n
at-call_paths (mkdir p) q n s h = h
at-call_paths (put_node p m) q n (r, w) h = go (lookup p r) refl
  where
    go :
        (o : Option DagNode)
        → lookup p r ≡ o
        → lookup q (call_paths (put_node p m) (r, w)).1.0 ≡ some n
    go none e = elim (Bool-cases (str_eq q p)) [
      | inl same ↦ absurd (ground (arith, str_eq_iff q p))
      | inr other ↦
          let ne : q ≢ p = λ e'. ground (arith, (str_eq_iff q p).1 e') in
          let kept = lookup-insert_ne p q m r ne in ground (arith, kept)
    ]
    go (some x) e = ground arith
at-call_paths flush q n s h = h
at-call_paths flush_mem_free q n s h = h
at-call_paths close q n s h = h

pub Reads-call_paths :
    (k : Call) (n : DagNode) (c : Str) (s : Roots)
    → Reads block_dag n c s.1
    → Reads block_dag n c (call_paths k s).1.1
Reads-call_paths (mkdir p) n c s h = h
Reads-call_paths (put_node p m) n c (r, w) h = go (lookup p r) refl
  where
    go :
        (o : Option DagNode)
        → lookup p r ≡ o
        → Reads block_dag n c (call_paths (put_node p m) (r, w)).1.1
    go none e = ground (arith, h)
    go (some x) e = ground (arith, h)
Reads-call_paths flush n c s h = h
Reads-call_paths flush_mem_free n c s h = h
Reads-call_paths close n c s h = h

-- Another file that is laid out takes nothing away: at most it stands where the file stood.
pub Reads-lay :
    (b : Str) (n : DagNode) (c : Str) (w : Dict Str)
    → Reads block_dag n c w
    → Reads block_dag n c (lay b w).1
Reads-lay b n c w (there, reads) = go (lookup n.cid w) refl (Bool-cases (str_eq b n.cid))
  where
    go :
        (o : Option Str)
        → lookup n.cid w ≡ o
        → (str_eq b n.cid ≡ true) ⊎ (str_eq b n.cid ≡ false)
        → Reads block_dag n c (lay b w).1
    go none e d = absurd (ground arith)
    go (some x) e (inl same) = let now = lookup-insert b n.cid [] w in (ground arith, ground arith)
    go (some x) e (inr other) = let now = lookup-insert b n.cid [] w in (ground arith, ground arith)

pub no_depth :
    (name : Str)
    → (w : Dict Str) → ◌≡◌ {A = Result (Unit {0})} (err (Error.foreign 5)) (ok tt)
    → 0 < 0
no_depth name w h = absurd (ground arith)

pub read-laid_out :
    (content spec : Str) (raw nocopy trickle : Bool) (p : Unit {0}) (ch b : Str) (n : DagNode)
    (w w1 w2 : Dict Str)
    → ◌≡◌ {A = Result Str} (ok content) (ok ch)
    → ◌≡◌ {A = Result Str} (ok ch) (ok b)
    → lay b w ≡ (ok n, w1)
    → ◌≡◌ {A = Result (Unit {0}) × Dict Str} (ok tt, w1) (ok tt, w2)
    → Reads block_dag n content w2
read-laid_out content spec raw nocopy trickle p ch b n w w1 w2 e e' h h' =
    read-lay content ch b n w w2 e e' (ground arith)

abbrev pub path_files : Mfs block_dag
path_files = record {
  Root = Dict DagNode;
  FsNode = Unit;
  new_root = λ p w. (ok [], w);
  call = λ p k. call_paths k;
  get_directory = λ r. tt;
  kind = λ f. directory;
  list_names = λ f w. ok [];
  child = λ f name w. err (Error.foreign 5);
  fs_node = λ f w. (ok (leaf []), w);
  buffered_layout = λ t. lay;
  commit = λ w. (ok tt, w);
  add_node = λ n w. (ok tt, w);
  symlink_node = λ p target. ok (leaf target);
  under_filestore = λ n. n;
  size = λ n. ok 0;
  at = lookup;
  at-put_node = λ p q n s s' h. at-put_paths q n s s' h;
  at-call = λ p k q n s h. at-call_paths k q n s h;
  reads-call = λ p k n c s h. Reads-call_paths k n c s h;
  reads-new_root = λ p n c w h. h;
  reads-fs_node = λ f n c w h. h;
  reads-buffered_layout = λ t b n c w h. Reads-lay b n c w h;
  reads-commit = λ n c w h. h;
  reads-add_node = λ m n c w h. h;
  reads-laid_out = read-laid_out;
  depth = λ f. 0;
  depth-child = λ f g name w h. no_depth name w h;
}

abbrev plain_adder : Adder block_dag path_files
plain_adder = record {
  trickle = false;
  raw_leaves = false;
  silent = false;
  no_copy = false;
  chunker = [];
  cid_builder = tt;
  sync = none;
}

abbrev empty_adding : Adding block_dag path_files
empty_adding = record { root = none; live_nodes = 0; out = none; world = [] }

-- A directory with a file, and a directory with a file in it.
abbrev two_files : Tree
two_files = directory_tree (
    entry (codes "a") (file_with (codes "x")) (
      entry (codes "d") (directory_tree (entry (codes "b") (file_with (codes "y")) (ended none)))
        (ended none)))

abbrev after_tree : Adding block_dag path_files
after_tree = (add_tree plain_adder two_files empty_adding).1

add_all-Found_example :
    (r : Result DagNode × Adding block_dag path_files) × (add_all plain_adder 1 two_files
        empty_adding
      ≡ some r)
    × ((path content : Str)
        → In (path, content) (files_of [] two_files)
        → Put plain_adder path content r.1)
unfolding add_tree str_eq dir has_prefix join split_slash split_rest lookup insert
add_all-Found_example =
    add_all-Found plain_adder 1 two_files empty_adding after_tree tt [] (leaf []) refl refl
      (omega arith)

live_nodes_bounded_example :
    (add_file_node plain_adder [] two_files true empty_adding).1.live_nodes ≤ live_cache_size
live_nodes_bounded_example =
    live_nodes_bounded plain_adder [] two_files true empty_adding (omega arith)

-- A root whose child has a child: the root and the child are deleted.
abbrev chain : Dict Str
chain = (codes "r", codes "m") ∷ (codes "m", codes "l") ∷ (codes "l", []) ∷ []

delete_file_exactly_example :
    (links : List Link) × (block_dag.has_block (codes "r") chain ≡ ok true)
    × (block_dag.get_links (codes "r") chain ≡ ok links)
    × ((j : Str)
        → block_dag.is_inline (block_dag.block_of j) ≡ false
        → RootOrLink block_dag (codes "r") links j
        → block_dag.has_block j ((codes "l", []) ∷ []) ≡ ok false)
    × ((j : Str)
        → (RootOrLink block_dag (codes "r") links j → ⊥)
        → block_dag.has_block j ((codes "l", []) ∷ []) ≡ block_dag.has_block j chain)
unfolding delete_file lookup str_eq
delete_file_exactly_example =
    delete_file_exactly block_dag (codes "r") chain ((codes "l", []) ∷ []) refl

download_ends_example :
    (result : Result Int64) × (download block_dag 3 (codes "xy") ((codes "xy", []) ∷ [])
      ≡ some result)
    × ReadsAll block_dag 2 2 result
unfolding lookup str_eq
download_ends_example =
    download_ends block_dag 3 (codes "xy") ((codes "xy", []) ∷ []) (leaf (codes "xy")) 2 refl refl
      (omega arith)
