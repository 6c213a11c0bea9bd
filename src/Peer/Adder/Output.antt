-- ===== src/Peer/Adder/Output.antt =====
-- Adding a whole tree ends, and has put every file of it.
use mathlib.Core.Path.{subst}
use ipfs_lite.Prelude.{
  ◌≡◌, ◌≢◌, refl, ◌<◌, ℕ, zero, suc, arith, true, Option, none, some, List, [], ◌∷◌, Str, Error,
  Result, str_eq_iff, ok, err, panic, In,
}
use ipfs_lite.Prelude.Io.{pure, ◌>>=◌, Keeps, lift-keeps, bind-keeps, bind-ok}
use ipfs_lite.Prelude.Paths.{join}
use ipfs_lite.Extern.Dag.{Dag, DagNode}
use ipfs_lite.Extern.Mfs.{Mfs, FsKind, file, directory, unrecognized, flush, close}
use ipfs_lite.Peer.Adder.{
  place, Tree, Adder, Adding, Add, on_dag, on_root, call_root, output_dagnode, add_file_node,
  output_children, output_dirs, swap_root, add_tree, synced, add_all,
}
use ipfs_lite.Peer.Adder.Standing.{
  Holds, on_dag-Holds, on_root-Holds, call_root-Holds, output_dagnode-Holds,
}
use ipfs_lite.Peer.Adder.Trees.{files_of, Found, add_file_node-Found}

module _ {dg : Dag} {mf : Mfs dg} (adder : Adder dg mf) (q : Str) (m : DagNode) (c : Str) where
  -- A call that returns, and keeps a node standing.
  abbrev Ends : Adding dg mf → Option (Result (Unit {0}) × Adding dg mf) → Type 0
  Ends s o =
      (r : Result (Unit {0}) × Adding dg mf) × (o ≡ some r)
      × (Holds adder q m c s → Holds adder q m c r.1)

  output_children-Ends :
      (visit : Str → mf.FsNode → Adding dg mf → Option (Result (Unit {0}) × Adding dg mf))
      (path : Str) (f : mf.FsNode) (names : List Str) (s : Adding dg mf)
      → ((p : Str) (g : mf.FsNode) (s' : Adding dg mf)
          → mf.depth g < mf.depth f
          → Ends s' (visit p g s'))
      → Ends s (output_children adder visit path f names s)
  unfolding output_children
  output_children-Ends visit path f [] s h = ((ok tt, s), refl, λ z. z)
  output_children-Ends visit path f (name ∷ names) s h =
      child (mf.child f name s.world) refl (λ s'. output_children-Ends visit path f names s' h)
    where
      all : Option (Result (Unit {0}) × Adding dg mf)
      all = output_children adder visit path f (name ∷ names) s

      rest : Adding dg mf → Option (Result (Unit {0}) × Adding dg mf)
      rest s' = output_children adder visit path f names s'

      visited :
          (g : mf.FsNode)
          → mf.child f name s.world ≡ ok g
          → ((s' : Adding dg mf) → Ends s' (rest s'))
          → (r : Result (Unit {0}) × Adding dg mf) → visit (join path name) g s ≡ some r
          → (Holds adder q m c s → Holds adder q m c r.1)
          → Ends s all
      visited g e ih (ok u, s') e' kept =
          let (r, er, kr) = ih s' in (r, ground arith, λ z. kr (kept z))
      visited g e ih (err x, s') e' kept = ((err x, s'), ground arith, kept)
      visited g e ih (panic, s') e' kept = ((panic, s'), ground arith, kept)

      child :
          (r : Result mf.FsNode)
          → mf.child f name s.world ≡ r
          → ((s' : Adding dg mf) → Ends s' (rest s'))
          → Ends s all
      child (ok g) e ih =
          let (r, er, kr) = h (join path name) g s (mf.depth-child f g name s.world e) in
          visited g e ih r er kr
      child (err x) e ih = ((err x, s), ground arith, λ z. z)
      child panic e ih = ((panic, s), ground arith, λ z. z)

  output_dirs-Ends :
      (fuel : ℕ) (path : Str) (f : mf.FsNode) (s : Adding dg mf)
      → mf.depth f < fuel
      → Ends s (output_dirs adder fuel path f s)
  unfolding output_dirs
  output_dirs-Ends zero path f s h = absurd (omega arith)
  output_dirs-Ends (suc fuel) path f s h =
      shown (mf.kind f) refl (mf.list_names f s.world) refl
        (λ p g s' lower. output_dirs-Ends fuel p g s' (omega arith))
    where
      all : Option (Result (Unit {0}) × Adding dg mf)
      all = output_dirs adder (suc fuel) path f s

      own :
          (names : List Str)
          → mf.kind f ≡ directory
          → mf.list_names f s.world ≡ ok names
          → (r : Result (Unit {0}) × Adding dg mf)
          → output_children adder (output_dirs adder fuel) path f names s ≡ some r
          → (Holds adder q m c s → Holds adder q m c r.1)
          → Ends s all
      own names e e' (ok u, s') er kr =
          let node = on_dag-Holds adder q m c (mf.fs_node f) (mf.reads-fs_node f m c) in
          let output = bind-keeps node (λ n. output_dagnode-Holds adder q m c path n) in
          (
            (on_dag adder (mf.fs_node f) >>= output_dagnode adder path) s',
            ground arith,
            λ z. output.keep s' (kr z),
          )
      own names e e' (err x, s') er kr = ((err x, s'), ground arith, kr)
      own names e e' (panic, s') er kr = ((panic, s'), ground arith, kr)

      shown :
          (k : FsKind)
          → mf.kind f ≡ k
          → (r : Result (List Str)) → mf.list_names f s.world ≡ r
          → ((p : Str) (g : mf.FsNode) (s' : Adding dg mf)
              → mf.depth g < mf.depth f
              → Ends s' (output_dirs adder fuel p g s'))
          → Ends s all
      shown file e r e' ih = ((ok tt, s), ground arith, λ z. z)
      shown unrecognized e r e' ih = ((err Error.unknown_file_type, s), ground arith, λ z. z)
      shown directory e (err x) e' ih = ((err x, s), ground arith, λ z. z)
      shown directory e panic e' ih = ((panic, s), ground arith, λ z. z)
      shown directory e (ok names) e' ih =
          let (r, er, kr) = output_children-Ends (output_dirs adder fuel) path f names s ih in
          own names e e' r er kr

module _ {dg : Dag} {mf : Mfs dg} (adder : Adder dg mf) where
  swap_root-Holds :
      (q : Str) (m : DagNode) (c : Str) (tree : Tree)
      → Keeps (Holds adder q m c) (swap_root adder tree)
  unfolding swap_root
  swap_root-Holds q m c tree = record { keep = λ s h. subst (Holds adder q m c) (same s) h }
    where
      same : (s : Adding dg mf) → s ≡ (swap_root adder tree s).1
      same s = ground arith

  -- The files of a tree that was added stay until the output of its directories.
  add_tree-Found :
      (tree : Tree) (s s1 : Adding dg mf) (top : (mf.FsNode × Str) × DagNode) (f : Str × Str)
      → add_tree adder tree s ≡ (ok top, s1)
      → In f (files_of [] tree)
      → Found adder f s1
  unfolding add_tree
  add_tree-Found tree s s1 top f h i =
      let after : Add adder ((mf.FsNode × Str) × DagNode) = swap_root adder tree >>= λ t.
      on_root adder (mf.call adder.cid_builder close) >>= λ u.
      on_dag adder (mf.fs_node t.0) >>= λ n. pure (t, n) in
      let (u, s', e, h') =
        bind-ok (add_file_node adder [] tree true) (λ u. call_root adder flush >>= λ u. after) s
          h in
      let (n, found) = add_file_node-Found adder [] tree true s s' f (ground arith) i in
      let q = place adder f.0 n in
      let m = mf.under_filestore n in
      let kept =
        (bind-keeps (call_root-Holds adder q m f.1 flush) (λ u.
            bind-keeps (swap_root-Holds q m f.1 tree) (λ t.
              bind-keeps (on_root-Holds adder q m f.1 close) (λ u.
                bind-keeps
                  (on_dag-Holds adder q m f.1 (mf.fs_node t.0) (mf.reads-fs_node t.0 m f.1))
                  (λ n. lift-keeps {A = (mf.FsNode × Str) × DagNode} (ok (t, n))))))).keep
          s' found in
      (n, ground (arith, kept))

  -- A file of the tree was put: it stands at its path, or at the text of its CID where it has none, and
  -- reads as its content.
  abbrev pub Put : Str → Str → Adding dg mf → Type 0
  Put path content s =
      (n : DagNode) × (path ≢ [] → Holds adder path (mf.under_filestore n) content s)
      × (path ≡ [] → Holds adder (dg.cid_string n.cid) (mf.under_filestore n) content s)

  Found-Put :
      (path content : Str) (s : Adding dg mf) → Found adder (path, content) s → Put path content s
  unfolding place
  Found-Put path content s (n, there) = (
    n,
    λ ne. ground (arith, there, str_eq_iff path []),
    λ e. ground (arith, there, str_eq_iff path []),
  )

  -- AddAll, where the DAG service has no Sync and the files have been put and the root is closed: with
  -- more fuel than the node that it returns is deep, it ends; and then, whatever the output of the
  -- directories gives, every file of the tree stands in the adder's root at the joined path of its
  -- entries, or at the text of its CID for a single file, and reads as its content.
  pub add_all-Found :
      (fuel : ℕ) (tree : Tree) (s s1 : Adding dg mf) (top : mf.FsNode) (name : Str) (n : DagNode)
      → adder.sync ≡ none
      → add_tree adder tree s ≡ (ok ((top, name), n), s1)
      → mf.depth top < fuel
      → (r : Result DagNode × Adding dg mf) × (add_all adder fuel tree s ≡ some r)
        × ((path content : Str) → In (path, content) (files_of [] tree) → Put path content r.1)
  unfolding add_all synced
  add_all-Found fuel tree s s1 top name n unsynced h deep =
      ended' (output_dirs adder fuel name top s1) refl
    where
      found : (f : Str × Str) → In f (files_of [] tree) → Found adder f s1
      found f i = add_tree-Found tree s s1 ((top, name), n) f h i

      ends :
          (q : Str) (m : DagNode) (c : Str)
          → (r : Result (Unit {0}) × Adding dg mf) × (output_dirs adder fuel name top s1 ≡ some r)
            × (Holds adder q m c s1 → Holds adder q m c r.1)
      ends q m c = output_dirs-Ends adder q m c fuel name top s1 deep

      later :
          (r : Result (Unit {0}) × Adding dg mf)
          → output_dirs adder fuel name top s1 ≡ some r
          → (path content : Str) → In (path, content) (files_of [] tree)
          → Put path content r.1
      later r e path content i =
          let f : Str × Str = (path, content) in
          let (m, holds) = found f i in
          let (r', e', kept) = ends (place adder f.0 m) (mf.under_filestore m) f.1 in
          let now = kept holds in Found-Put path content r.1 (m, ground (arith, now))

      ended' :
          (o : Option (Result (Unit {0}) × Adding dg mf))
          → output_dirs adder fuel name top s1 ≡ o
          → (r : Result DagNode × Adding dg mf) × (add_all adder fuel tree s ≡ some r)
            × ((path content : Str) → In (path, content) (files_of [] tree) → Put path content r.1)
      ended' none e = let (r', e', kept) = ends [] n [] in absurd (ground arith)
      ended' (some (ok u, s2)) e = ((ok n, s2), ground arith, later (ok u, s2) e)
      ended' (some (err x, s2)) e = ((err x, s2), ground arith, later (err x, s2) e)
      ended' (some (panic, s2)) e = ((panic, s2), ground arith, later (panic, s2) e)
