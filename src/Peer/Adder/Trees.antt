-- ===== src/Peer/Adder/Trees.antt =====
-- Every file of a tree that was added is in the root of the adder, and is read back.
use mathlib.Core.Path.{subst}
use ipfs_lite.Prelude.{
  ◌≡◌, inl, inr, ◌⊎◌, arith, Bool, false, List, [], ◌∷◌, ◌++◌, Str, ok, In, sym,
}
use ipfs_lite.Prelude.Io.{pure, lift, ◌>>=◌, ◌>>◌, bind-ok, lift-bind-ok}
use ipfs_lite.Prelude.Paths.{join}
use ipfs_lite.Extern.Dag.{Dag, DagNode}
use ipfs_lite.Extern.Mfs.{Mfs}
use ipfs_lite.Peer.Adder.{
  Tree, directory_tree, symlink, file_with, other_tree, Entries, ended, entry, Adder, Adding, Add,
  on_dag, add, place, add_node, add_file, count_live, enter_dir, add_file_node, add_entries,
}
use ipfs_lite.Peer.Adder.Keeping.{add_entries-keeps}
use ipfs_lite.Peer.Adder.Standing.{Holds, Holds-Kept, Readable, add_node_lem}

-- The files of a tree that stands at a path, with their paths and their contents.
unfoldable mutual
  pub files_of : Str → Tree → List (Str × Str)
  files_of path (directory_tree es) = files_in path es
  files_of path (symlink target) = []
  files_of path (file_with content) = (path, content) ∷ []
  files_of path other_tree = []

  pub files_in : Str → Entries → List (Str × Str)
  files_in path (ended e) = []
  files_in path (entry name tree es) = files_of (join path name) tree ++ files_in path es

In-append : {A : Type 0} (x : A) (xs ys : List A) → In x (xs ++ ys) → In x xs ⊎ In x ys
In-append x [] ys i = inr i
In-append x (y ∷ xs) ys (inl e) = inl (inl e)
In-append x (y ∷ xs) ys (inr i) = elim (In-append x xs ys i) [ inl j ↦ inl (inr j) | inr j ↦ inr j ]

module _ {dg : Dag} {mf : Mfs dg} (adder : Adder dg mf) where
  add_lem :
      (content : Str) (n : DagNode) (s s' : Adding dg mf)
      → add adder content s ≡ (ok n, s')
      → Readable adder (mf.under_filestore n) content s'
  unfolding add on_dag
  add_lem content n s s' h =
      let commit : DagNode → Add adder DagNode = λ n. on_dag adder mf.commit >> pure n in
      let lay_out : dg.Builder → Add adder DagNode =
        λ b. on_dag adder (mf.buffered_layout adder.trickle b) >>= commit in
      let (chunks, e1, h1) =
        lift-bind-ok (dg.from_string content adder.chunker)
          (λ chunks.
            lift (dg.new_builder adder.raw_leaves adder.no_copy adder.cid_builder chunks)
            >>= lay_out)
          s h in
      let (b, e2, h2) =
        lift-bind-ok (dg.new_builder adder.raw_leaves adder.no_copy adder.cid_builder chunks)
          lay_out s h1 in
      let (n', s1, e3, h3) =
        bind-ok (on_dag adder (mf.buffered_layout adder.trickle b)) commit s h2 in
      let (u, s2, e4, h4) = bind-ok (on_dag adder mf.commit) (λ u. pure n') s1 h3 in
      let reads =
        mf.reads-laid_out content adder.chunker adder.raw_leaves adder.no_copy adder.trickle
          adder.cid_builder chunks b n' s.world s1.world s2.world e1 e2 (ground arith)
          (ground arith) in
      ground (arith, reads)

  -- A file stands in the root, at its path or at the text of its CID where the path is empty, and
  -- reads as its content.
  abbrev pub Found : Str × Str → Adding dg mf → Type 0
  Found f s = (n : DagNode) × Holds adder (place adder f.0 n) (mf.under_filestore n) f.1 s

  mutual
    unfolding files_of add_file_node add_file

    pub add_file_node-Found :
        (path : Str) (tree : Tree) (toplevel : Bool) (s s' : Adding dg mf) (f : Str × Str)
        → add_file_node adder path tree toplevel s ≡ (ok tt, s')
        → In f (files_of path tree)
        → Found f s'
    add_file_node-Found path (directory_tree es) toplevel s s' f h i =
        let (u, s1, e, h') =
          bind-ok (count_live adder >> enter_dir adder path toplevel)
            (λ u. add_entries adder path es) s h in
        add_entries-Found path es s1 s' f h' i
    add_file_node-Found path (symlink target) toplevel s s' f h i = absurd i
    add_file_node-Found path (file_with content) toplevel s s' f h (inl same) =
        let (u, s1, e1, h1) = bind-ok (count_live adder) (λ u. add_file adder path content) s h in
        let (n, s2, e2, h2) = bind-ok (add adder content) (λ n. add_node adder n path) s1 h1 in
        subst (λ g. Found g s') (sym same)
          (n, add_node_lem adder n path content s2 s' h2 (add_lem content n s1 s2 e2))
    add_file_node-Found path (file_with content) toplevel s s' f h (inr i) = absurd i
    add_file_node-Found path other_tree toplevel s s' f h i = absurd i

    pub add_entries-Found :
        (path : Str) (es : Entries) (s s' : Adding dg mf) (f : Str × Str)
        → add_entries adder path es s ≡ (ok tt, s')
        → In f (files_in path es)
        → Found f s'
    add_entries-Found path (ended e) s s' f h i = absurd i
    add_entries-Found path (entry name tree es) s s' f h i =
        let (u, s1, e, h') =
          bind-ok (add_file_node adder (join path name) tree false) (λ u. add_entries adder path es)
            s h in
        elim (In-append f (files_of (join path name) tree) (files_in path es) i) [
          | inl here ↦
              let (n, found) =
                add_file_node-Found (join path name) tree false s s1 f (ground (arith, e)) here in
              let kept =
                (add_entries-keeps adder
                    (Holds-Kept adder (place adder f.0 n) (mf.under_filestore n) f.1) path es).keep
                  s1 found in
              (n, ground (arith, kept))
          | inr there ↦ add_entries-Found path es s1 s' f h' there
        ]
