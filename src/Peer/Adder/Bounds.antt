-- ===== src/Peer/Adder/Bounds.antt =====
-- The bound on the live nodes of an adder.
use ipfs_lite.Prelude.{
  ◌≡◌, refl, ◌≤◌, ◌<◌, arith, Bool, true, false, Str, add64, leb, Result, ok, err, panic,
}
use ipfs_lite.Prelude.Io.{Io, ◌>>◌, Keeps, bind-keeps}
use ipfs_lite.Extern.Dag.{Dag, DagNode}
use ipfs_lite.Extern.Mfs.{Mfs, Call, flush_mem_free}
use ipfs_lite.Peer.Adder.{
  Tree, live_cache_size, Adder, Adding, Add, on_dag, on_root, mfs_root, call_root, output_dagnode,
  free_when, count_live, add_file_node,
}
use ipfs_lite.Peer.Adder.Keeping.{Kept, add_file_node-keeps}

module _ {dg : Dag} {mf : Mfs dg} (adder : Adder dg mf) where
  -- At most as many live nodes as the cache holds.
  abbrev pub Bounded : Adding dg mf → Type 0
  Bounded s = s.live_nodes ≤ live_cache_size

  on_dag-Bounded : {A : Type 0} (m : Io dg.World A) → Keeps Bounded (on_dag adder m)
  unfolding on_dag
  on_dag-Bounded m = record { keep = λ s h. h }

  on_root-Bounded : {A : Type 0} (m : Io (mf.Root × dg.World) A) → Keeps Bounded (on_root adder m)
  unfolding on_root
  on_root-Bounded m = record { keep = λ s h. ground arith }

  mfs_root-Bounded : Keeps Bounded (mfs_root adder)
  unfolding mfs_root on_dag
  mfs_root-Bounded = record { keep = λ s h. ground arith }

  call_root-Bounded : (k : Call) → Keeps Bounded (call_root adder k)
  unfolding call_root
  call_root-Bounded k =
      bind-keeps mfs_root-Bounded (λ u. on_root-Bounded (mf.call adder.cid_builder k))

  output_dagnode-Bounded : (name : Str) (n : DagNode) → Keeps Bounded (output_dagnode adder name n)
  unfolding output_dagnode
  output_dagnode-Bounded name n = record { keep = λ s h. ground arith }

  -- After the cache has been freed where it was full, there is room.
  free_when-Bounded :
      (b : Bool) (s : Adding dg mf)
      → leb live_cache_size s.live_nodes ≡ b
      → Bounded s
      → Bounded (free_when adder b s).1
        × ((free_when adder b s).0 ≡ ok tt → (free_when adder b s).1.live_nodes < live_cache_size)
  unfolding free_when
  free_when-Bounded true s e h = freed (call_root adder flush_mem_free s).0 refl
    where
      kept : Bounded (call_root adder flush_mem_free s).1
      kept = (call_root-Bounded flush_mem_free).keep s h

      freed :
          (r : Result (Unit {0}))
          → (call_root adder flush_mem_free s).0 ≡ r
          → Bounded (free_when adder true s).1
            × ((free_when adder true s).0 ≡ ok tt
                → (free_when adder true s).1.live_nodes < live_cache_size)
      freed (ok u) e' = (ground arith, ground arith)
      freed (err x) e' = (ground (arith, kept), λ z. absurd (ground arith))
      freed panic e' = (ground (arith, kept), λ z. absurd (ground arith))
  free_when-Bounded false s e h = (h, ground arith)

  count_live-Bounded : Keeps Bounded (count_live adder)
  unfolding count_live
  count_live-Bounded = record {
    keep = λ s h.
        let full = leb live_cache_size s.live_nodes in
        let (kept, room) = free_when-Bounded full s refl h in
        counted full s (free_when adder full s).0 refl kept room;
  }
    where
      count : Add adder (Unit {0})
      count s = (ok tt, record s { live_nodes = add64 s.live_nodes 1 })

      counted :
          (b : Bool) (s : Adding dg mf) (r : Result (Unit {0}))
          → (free_when adder b s).0 ≡ r
          → Bounded (free_when adder b s).1
          → ((free_when adder b s).0 ≡ ok tt → (free_when adder b s).1.live_nodes < live_cache_size)
          → Bounded ((free_when adder b >> count) s).1
      counted b s (ok u) e kept room = let fits = room (ground arith) in ground arith
      counted b s (err x) e kept room = ground arith
      counted b s panic e kept room = ground arith

  Bounded-Kept : Kept adder Bounded
  Bounded-Kept = record {
    roots = mfs_root-Bounded;
    calls = call_root-Bounded;
    laid_out = λ b. on_dag-Bounded (mf.buffered_layout adder.trickle b);
    committed = on_dag-Bounded mf.commit;
    added = λ n. on_dag-Bounded (mf.add_node n);
    sent = output_dagnode-Bounded;
    counted = count_live-Bounded;
  }

  -- However many entries a tree has and however deep it is, whether it is added or fails, an adder
  -- whose live nodes were at most as many as the cache holds has at most as many.
  pub live_nodes_bounded :
      (path : Str) (tree : Tree) (toplevel : Bool) (s : Adding dg mf)
      → s.live_nodes ≤ live_cache_size
      → (add_file_node adder path tree toplevel s).1.live_nodes ≤ live_cache_size
  live_nodes_bounded path tree toplevel =
      (add_file_node-keeps adder Bounded-Kept path tree toplevel).keep
