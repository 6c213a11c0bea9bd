-- ===== src/Peer/Adder/Standing.antt =====
-- What stands in the root of an adder stays, and can be read.
use ipfs_lite.Prelude.{
  ◌≡◌, refl, arith, Bool, true, false, Option, none, some, codes, Str, str_eq, Result, ok, err,
  panic, leb, add64, if_cases, if◌then◌else◌,
}
use ipfs_lite.Prelude.Io.{Io, pure, ◌>>=◌, Keeps, lift-keeps, bind-keeps, bind-ok}
use ipfs_lite.Prelude.Paths.{dir}
use ipfs_lite.Extern.Dag.{Dag, DagNode}
use ipfs_lite.Extern.Mfs.{Mfs, Call, mkdir, put_node, flush_mem_free, Reads}
use ipfs_lite.Peer.Adder.{
  Adder, Adding, Add, on_dag, on_root, mfs_root, call_root, output_dagnode, place, add_node,
  free_when, count_live, live_cache_size,
}
use ipfs_lite.Peer.Adder.Keeping.{Kept, unless-keeps}

module _ {dg : Dag} {mf : Mfs dg} (adder : Adder dg mf) where
  -- A node stands at a path of the root and reads as the content.
  abbrev pub Holds : Str → DagNode → Str → Adding dg mf → Type 0
  Holds q n c s =
      (root : mf.Root) × (s.root ≡ some root) × (mf.at q root ≡ some n) × Reads dg n c s.world

  mfs_root-Holds : (q : Str) (n : DagNode) (c : Str) → Keeps (Holds q n c) (mfs_root adder)
  unfolding mfs_root
  mfs_root-Holds q n c = record {
    keep = λ s (root, e, stands, reads). (root, ground arith, stands, ground (arith, reads));
  }

  pub on_root-Holds :
      (q : Str) (n : DagNode) (c : Str) (k : Call)
      → Keeps (Holds q n c) (on_root adder (mf.call adder.cid_builder k))
  unfolding on_root
  on_root-Holds q n c k = record {
    keep = λ s (root, e, stands, reads).
        let still = mf.at-call adder.cid_builder k q n (root, s.world) stands in
        let again = mf.reads-call adder.cid_builder k n c (root, s.world) reads in
        (
          (mf.call adder.cid_builder k (root, s.world)).1.0,
          ground arith,
          still,
          ground (arith, again),
        );
  }

  pub call_root-Holds :
      (q : Str) (n : DagNode) (c : Str) (k : Call) → Keeps (Holds q n c) (call_root adder k)
  unfolding call_root
  call_root-Holds q n c k = bind-keeps (mfs_root-Holds q n c) (λ u. on_root-Holds q n c k)

  pub on_dag-Holds :
      {A : Type 0} (q : Str) (n : DagNode) (c : Str) (m : Io dg.World A)
      → ((w : dg.World) → Reads dg n c w → Reads dg n c (m w).1)
      → Keeps (Holds q n c) (on_dag adder m)
  unfolding on_dag
  on_dag-Holds q n c m h = record {
    keep = λ s (root, e, stands, reads). (root, e, stands, h s.world reads);
  }

  pub output_dagnode-Holds :
      (q : Str) (n : DagNode) (c name : Str) (m : DagNode)
      → Keeps (Holds q n c) (output_dagnode adder name m)
  unfolding output_dagnode
  output_dagnode-Holds q n c name m = record {
    keep = λ s (root, e, stands, reads). (root, ground arith, stands, ground (arith, reads));
  }

  free_when-Holds :
      (q : Str) (n : DagNode) (c : Str) (b : Bool) → Keeps (Holds q n c) (free_when adder b)
  unfolding free_when
  free_when-Holds q n c true =
      bind-keeps {f = λ u s. (ok tt, record s { live_nodes = 0 })}
        (call_root-Holds q n c flush_mem_free) (λ u. record { keep = λ s h. h })
  free_when-Holds q n c false = lift-keeps (ok tt)

  count_live-Holds : (q : Str) (n : DagNode) (c : Str) → Keeps (Holds q n c) (count_live adder)
  unfolding count_live
  count_live-Holds q n c = record {
    keep = λ s.
        (bind-keeps {f = λ u s'. (ok tt, record s' { live_nodes = add64 s'.live_nodes 1 })}
            (free_when-Holds q n c (leb live_cache_size s.live_nodes))
            (λ u. record { keep = λ s' h. h })).keep
          s;
  }

  pub Holds-Kept : (q : Str) (n : DagNode) (c : Str) → Kept adder (Holds q n c)
  Holds-Kept q n c = record {
    roots = mfs_root-Holds q n c;
    calls = call_root-Holds q n c;
    laid_out = λ b.
        on_dag-Holds q n c (mf.buffered_layout adder.trickle b)
          (mf.reads-buffered_layout adder.trickle b n c);
    committed = on_dag-Holds q n c mf.commit (mf.reads-commit n c);
    added = λ m. on_dag-Holds q n c (mf.add_node m) (mf.reads-add_node m n c);
    sent = output_dagnode-Holds q n c;
    counted = count_live-Holds q n c;
  }

  -- What a node reads as stays through the calls on the root.
  abbrev pub Readable : DagNode → Str → Adding dg mf → Type 0
  Readable n c s = Reads dg n c s.world

  mfs_root-Readable : (n : DagNode) (c : Str) → Keeps (Readable n c) (mfs_root adder)
  unfolding mfs_root on_dag
  mfs_root-Readable n c = record { keep = λ s h. made s h s.root refl }
    where
      made :
          (s : Adding dg mf)
          → Readable n c s
          → (o : Option mf.Root) → s.root ≡ o
          → Readable n c (mfs_root adder s).1
      made s h (some root) e = ground (arith, h)
      made s h none e = fresh (mf.new_root adder.cid_builder s.world).0 refl
        where
          later : Reads dg n c (mf.new_root adder.cid_builder s.world).1
          later = mf.reads-new_root adder.cid_builder n c s.world h

          fresh :
              (r : Result mf.Root)
              → (mf.new_root adder.cid_builder s.world).0 ≡ r
              → Readable n c (mfs_root adder s).1
          fresh (ok root) e' = ground (arith, later)
          fresh (err x) e' = ground (arith, later)
          fresh panic e' = ground (arith, later)

  on_root-Readable :
      (n : DagNode) (c : Str) (k : Call)
      → Keeps (Readable n c) (on_root adder (mf.call adder.cid_builder k))
  unfolding on_root
  on_root-Readable n c k = record { keep = λ s h. go s h s.root refl }
    where
      go :
          (s : Adding dg mf)
          → Readable n c s
          → (o : Option mf.Root) → s.root ≡ o
          → Readable n c (on_root adder (mf.call adder.cid_builder k) s).1
      go s h (some root) e =
          let later = mf.reads-call adder.cid_builder k n c (root, s.world) h in
          ground (arith, later)
      go s h none e = ground (arith, h)

  call_root-Readable : (n : DagNode) (c : Str) (k : Call) → Keeps (Readable n c) (call_root adder k)
  unfolding call_root
  call_root-Readable n c k = bind-keeps (mfs_root-Readable n c) (λ u. on_root-Readable n c k)

  -- A node that was put stands in the root.
  put_lem :
      (q : Str) (n : DagNode) (c : Str) (s s' : Adding dg mf)
      → call_root adder (put_node q n) s ≡ (ok tt, s')
      → Readable n c s
      → Holds q n c s'
  unfolding call_root on_root
  put_lem q n c s s' h reads =
      let (u, s1, e, h') =
        bind-ok (mfs_root adder) (λ u. on_root adder (mf.call adder.cid_builder (put_node q n))) s
          h in
      go s1 h' s1.root refl
    where
      go :
          (s1 : Adding dg mf)
          → on_root adder (mf.call adder.cid_builder (put_node q n)) s1 ≡ (ok tt, s')
          → (o : Option mf.Root) → s1.root ≡ o
          → Holds q n c s'
      go s1 h' (some root) e =
          let called = mf.call adder.cid_builder (put_node q n) (root, s1.world) in
          let stands =
            mf.at-put_node adder.cid_builder q n (root, s1.world) called.1 (ground arith) in
          let later = (call_root-Readable n c (put_node q n)).keep s reads in
          (called.1.0, ground arith, stands, ground (arith, later))
      go s1 h' none e = absurd (ground arith)

  -- What is put at a path, or at the text of its CID where the path is empty.
  pub add_node_lem :
      (n : DagNode) (path c : Str) (s s' : Adding dg mf)
      → add_node adder n path s ≡ (ok tt, s')
      → Readable (mf.under_filestore n) c s
      → Holds (place adder path n) (mf.under_filestore n) c s'
  unfolding add_node
  add_node_lem n path c s s' h reads =
      let p = place adder path n in
      let n' = mf.under_filestore n in
      let parents : Add adder (Unit {0}) =
        if str_eq (dir p) (codes ".") then pure tt else call_root adder (mkdir (dir p)) in
      let shown : Add adder (Unit {0}) =
        if adder.silent then pure tt else output_dagnode adder p n' in
      let (u1, s1, e1, h1) =
        bind-ok (mfs_root adder)
          (λ u. parents >>= λ u. call_root adder (put_node p n') >>= λ u. shown) s h in
      let (u2, s2, e2, h2) =
        bind-ok parents (λ u. call_root adder (put_node p n') >>= λ u. shown) s1 h1 in
      let (u3, s3, e3, h3) = bind-ok (call_root adder (put_node p n')) (λ u. shown) s2 h2 in
      let r1 = (mfs_root-Readable n' c).keep s reads in
      let r2 =
        (if_cases (Keeps (Readable n' c)) (str_eq (dir p) (codes ".")) (λ t. lift-keeps (ok tt))
            (λ f. call_root-Readable n' c (mkdir (dir p)))).keep
          s1 (ground (arith, r1)) in
      let put = put_lem p n' c s2 s3 (ground arith) (ground (arith, r2)) in
      let kept =
        (unless-keeps adder (Holds-Kept p n' c) adder.silent (output_dagnode adder p n')
            (output_dagnode-Holds p n' c p n')).keep
          s3 put in
      ground (arith, kept)
