-- ===== src/Peer/Adder/Keeping.antt =====
-- What the adder keeps, call by call.
use ipfs_lite.Prelude.{
  Bool, true, false, ◌&&◌, none, some, [], codes, Str, str_eq, Error, ok, err, if◌then◌else◌,
}
use ipfs_lite.Prelude.Io.{lift-keeps, pure, Keeps, bind-keeps}
use ipfs_lite.Prelude.Paths.{join, dir}
use ipfs_lite.Extern.Dag.{Dag, DagNode}
use ipfs_lite.Extern.Mfs.{Mfs, Call, mkdir, put_node}
use ipfs_lite.Peer.Adder.{
  Tree, directory_tree, symlink, file_with, other_tree, Entries, ended, entry, Adder, Adding, Add,
  on_dag, mfs_root, call_root, add, output_dagnode, place, add_node, add_symlink, add_file,
  count_live, enter_dir, add_file_node, add_entries,
}

module _ {dg : Dag} {mf : Mfs dg} (adder : Adder dg mf) where
  -- A property that each call of an adder on its surroundings keeps.
  pub record Kept (P : Adding dg mf → Type 0) : Type 0 where
    pub roots : Keeps P (mfs_root adder)
    pub calls : (k : Call) → Keeps P (call_root adder k)
    pub laid_out : (b : dg.Builder) → Keeps P (on_dag adder (mf.buffered_layout adder.trickle b))
    pub committed : Keeps P (on_dag adder mf.commit)
    pub added : (n : DagNode) → Keeps P (on_dag adder (mf.add_node n))
    pub sent : (name : Str) (n : DagNode) → Keeps P (output_dagnode adder name n)
    pub counted : Keeps P (count_live adder)

  module _ {P : Adding dg mf → Type 0} (k : Kept P) where
    add-keeps : (content : Str) → Keeps P (add adder content)
    unfolding add
    add-keeps content = bind-keeps (lift-keeps (dg.from_string content adder.chunker)) (λ chunks.
        bind-keeps
          (lift-keeps (dg.new_builder adder.raw_leaves adder.no_copy adder.cid_builder chunks))
          (λ b. bind-keeps (k.laid_out b) (λ n. bind-keeps k.committed (λ u. lift-keeps (ok n)))))

    -- A guarded call.
    pub unless-keeps :
        (b : Bool) (m : Add adder (Unit {0})) → Keeps P m → Keeps P (if b then pure tt else m)
    unless-keeps true m h = lift-keeps (ok tt)
    unless-keeps false m h = h

    add_node-keeps : (n : DagNode) (path : Str) → Keeps P (add_node adder n path)
    unfolding add_node
    add_node-keeps n path =
        let p = place adder path n in
        let n' = mf.under_filestore n in
        bind-keeps k.roots (λ u.
          bind-keeps
            (unless-keeps (str_eq (dir p) (codes ".")) (call_root adder (mkdir (dir p)))
              (k.calls (mkdir (dir p))))
            (λ u'.
              bind-keeps (k.calls (put_node p n'))
                (λ u''. unless-keeps adder.silent (output_dagnode adder p n') (k.sent p n'))))

    add_symlink-keeps : (path target : Str) → Keeps P (add_symlink adder path target)
    unfolding add_symlink
    add_symlink-keeps path target =
        bind-keeps (lift-keeps (mf.symlink_node adder.cid_builder target))
          (λ n. bind-keeps (k.added n) (λ u. add_node-keeps n path))

    add_file-keeps : (path content : Str) → Keeps P (add_file adder path content)
    unfolding add_file
    add_file-keeps path content = bind-keeps (add-keeps content) (λ n. add_node-keeps n path)

    enter_dir-keeps : (path : Str) (toplevel : Bool) → Keeps P (enter_dir adder path toplevel)
    unfolding enter_dir
    enter_dir-keeps path toplevel =
        unless-keeps (toplevel && str_eq path []) (call_root adder (mkdir path))
          (k.calls (mkdir path))

    mutual
      unfolding add_file_node

      pub add_file_node-keeps :
          (path : Str) (tree : Tree) (toplevel : Bool)
          → Keeps P (add_file_node adder path tree toplevel)
      add_file_node-keeps path (directory_tree es) toplevel =
          bind-keeps (bind-keeps k.counted (λ u. enter_dir-keeps path toplevel))
            (λ u. add_entries-keeps path es)
      add_file_node-keeps path (symlink target) toplevel =
          bind-keeps k.counted (λ u. add_symlink-keeps path target)
      add_file_node-keeps path (file_with content) toplevel =
          bind-keeps k.counted (λ u. add_file-keeps path content)
      add_file_node-keeps path other_tree toplevel =
          bind-keeps k.counted (λ u. lift-keeps (err Error.unknown_file_type))

      pub add_entries-keeps : (path : Str) (es : Entries) → Keeps P (add_entries adder path es)
      add_entries-keeps path (ended none) = lift-keeps (ok tt)
      add_entries-keeps path (ended (some e)) = lift-keeps (err e)
      add_entries-keeps path (entry name tree es) =
          bind-keeps (add_file_node-keeps (join path name) tree false)
            (λ u. add_entries-keeps path es)
