-- ===== src/Peer/Files/Reading.antt =====
-- A file that was added is read back.
use ipfs_lite.Prelude.{◌≡◌, inl, inr, arith, Bool, Option, [], Str, codes, str_eq, ok, Bool-cases}
use ipfs_lite.Prelude.Io.{Io, lift, lift-bind-ok, ◌>>=◌}
use ipfs_lite.Extern.Dag.{Dag, DagNode}
use ipfs_lite.Peer.Files.{ℕ, AddParams, with_defaults, lay_out, known_hash, add_file, get_file}

module _ (dg : Dag) where
  open dg use {World, Reader, Builder, Prefix, Chunks}

  lay_out-read :
      (layout content spec : Str) (raw nocopy : Bool) (p : Prefix) (ch : Chunks) (b : Builder)
      (n : DagNode) (w w' : World)
      → dg.from_string content spec ≡ ok ch
      → dg.new_builder raw nocopy p ch ≡ ok b
      → lay_out dg layout b w ≡ (ok n, w')
      → (dg.get_node n.cid w' ≡ ok n) × (dg.read_node n w' ≡ ok content)
  unfolding lay_out
  lay_out-read layout content spec raw nocopy p ch b n w w' ec eb h =
      elim (Bool-cases (str_eq layout (codes "trickle"))) [
        | inl t ↦ dg.read-trickle content spec raw nocopy p ch b n w w' ec eb (ground arith)
        | inr t ↦ elim (Bool-cases (str_eq layout (codes "balanced"))) [
          | inl bal ↦ dg.read-balanced content spec raw nocopy p ch b n w w' ec eb (ground arith)
          | inr bal ↦ elim (Bool-cases (str_eq layout [])) [
            | inl blank ↦
                dg.read-balanced content spec raw nocopy p ch b n w w' ec eb (ground arith)
            | inr other ↦ absurd (ground arith)
          ]
        ]
      ]

  -- Whatever the layout, the chunker and the other parameters, when AddFile succeeds, GetFile with
  -- the CID of the node that it returned gives the content.
  pub get_file-add_file :
      (content : Str) (params : Option AddParams) (n : DagNode) (w w' : World)
      → add_file dg content params w ≡ (ok n, w')
      → get_file dg n.cid w' ≡ ok content
  unfolding add_file get_file
  get_file-add_file content params n w w' h =
      let p : AddParams = with_defaults params in
      let build : ℕ → Prefix → Chunks → Io World DagNode = λ code prefix ch.
        lift (dg.new_builder p.raw_leaves p.no_copy (dg.with_hash code prefix) ch)
        >>= lay_out dg p.layout in
      let (prefix, e1, h1) =
        lift-bind-ok (dg.prefix_for_cid_version 1)
          (λ prefix. lift (known_hash dg p.hash_fun) >>= λ code.
            lift (dg.from_string content p.chunker) >>= build code prefix)
          w h in
      let (code, e2, h2) =
        lift-bind-ok (known_hash dg p.hash_fun)
          (λ code. lift (dg.from_string content p.chunker) >>= build code prefix) w h1 in
      let (ch, e3, h3) = lift-bind-ok (dg.from_string content p.chunker) (build code prefix) w h2 in
      let (b, e4, h4) =
        lift-bind-ok (dg.new_builder p.raw_leaves p.no_copy (dg.with_hash code prefix) ch)
          (lay_out dg p.layout) w h3 in
      let (there, reads) =
        lay_out-read p.layout content p.chunker p.raw_leaves p.no_copy (dg.with_hash code prefix) ch
          b n w w' e3 e4 h4 in
      ground (arith, there, reads)
