-- ===== src/Extern/Dag.antt =====
-- The merkle DAG of a node and its importers: go-ipld-format, go-merkledag, go-unixfs,
-- go-ipfs-chunker, go-ipfs-blockstore, go-verifcid, multihash.
use ipfs_lite.Prelude.{
  [], ◌≡◌, ◌≢◌, ℕ, ◌+◌, ◌<◌, Bool, false, List, Option, Str, Error, Result, ok, In,
}
use ipfs_lite.Prelude.Io.{Io}
use ipfs_lite.Replication.Types.{Link}

-- `ipld.Node`, by its CID and its links.
pub record DagNode : Type 0 where
  pub cid : Str
  pub links : List Link

-- The error of a `Read`: none, io.EOF, or another.
pub data ReadEnd : Type 0 where
  more eof : ReadEnd
  failed : Error → ReadEnd

pub record Dag : Type 1 where
  pub World : Type 0
  pub Prefix : Type 0
  pub Chunks : Type 0
  pub Builder : Type 0
  pub Reader : Type 0
  -- `cid.Cid.String`
  pub cid_string : Str → Str
  -- `merkledag.PrefixForCidVersion`, `strings.ToLower`, `multihash.Names`, the prefix with a hash
  pub prefix_for_cid_version : ℕ → Result Prefix
  pub to_lower : Str → Str
  pub hash_code : Str → Option ℕ
  pub with_hash : ℕ → Prefix → Prefix
  -- `chunker.FromString`; `DagBuilderParams.New` with RawLeaves and NoCopy; the two layouts
  pub from_string : Str → Str → Result Chunks
  pub new_builder : Bool → Bool → Prefix → Chunks → Result Builder
  pub balanced : Builder → Io World DagNode
  pub trickle : Builder → Io World DagNode
  -- `Get`, and `ufsio.NewDagReader` read to its end, or read piece by piece
  pub get_node : Str → World → Result DagNode
  pub read_node : DagNode → World → Result Str
  pub new_reader : DagNode → World → Result Reader
  pub read : Reader → ℕ → (ℕ × ReadEnd) × Reader
  -- `Has` and `DeleteBlock` of the blockstore
  pub has_block : Str → World → Result Bool
  pub delete_block : Str → Io World (Unit {0})
  -- `ipld.GetLinks`, the check of `verifcid.ValidateCid`, and whether the message of an error holds
  -- one of verifcid's two
  pub get_links : Str → World → Result (List Link)
  pub validate_cid : Str → Result (Unit {0})
  pub is_insecure : Error → Bool
  -- `dag.Walk` from a root, with `Visit` of a `cid.Set`: the set with what it visited
  pub walk : (Str → Result (List Link)) → Str → List Str → Result (List Str)
  -- A laid out file is there and reads as what was chunked.
  pub read-balanced :
      (content spec : Str) (raw nocopy : Bool) (p : Prefix) (ch : Chunks) (b : Builder)
      (n : DagNode) (w w' : World)
      → from_string content spec ≡ ok ch
      → new_builder raw nocopy p ch ≡ ok b
      → balanced b w ≡ (ok n, w')
      → (get_node n.cid w' ≡ ok n) × (read_node n w' ≡ ok content)
  pub read-trickle :
      (content spec : Str) (raw nocopy : Bool) (p : Prefix) (ch : Chunks) (b : Builder)
      (n : DagNode) (w w' : World)
      → from_string content spec ≡ ok ch
      → new_builder raw nocopy p ch ≡ ok b
      → trickle b w ≡ (ok n, w')
      → (get_node n.cid w' ≡ ok n) × (read_node n w' ≡ ok content)
  -- The bytes that a reader has left, and a bound on the reads that it makes before it ends.
  pub left : Reader → ℕ
  pub reads : Reader → ℕ
  pub left-read :
      (r r' : Reader) (size n : ℕ) (e : ReadEnd) → read r size ≡ ((n, e), r') → left r ≡ n + left r'
  pub left-eof : (r r' : Reader) (size : ℕ) → read r size ≡ ((0, eof), r') → left r' ≡ 0
  pub reads-more : (r r' : Reader) (size n : ℕ) → read r size ≡ ((n, more), r') → reads r' < reads r
  pub reads-eof :
      (r r' : Reader) (size n : ℕ) → read r size ≡ ((n, eof), r') → n ≢ 0 → reads r' < reads r
  -- A block is stored under the multihash of its CID. A deleted block is gone, unless the multihash
  -- is the identity's, which holds the block itself; the others stay.
  pub block_of : Str → Str
  pub is_inline : Str → Bool
  pub has-same : (j c : Str) (w : World) → block_of j ≡ block_of c → has_block j w ≡ has_block c w
  pub has-delete :
      (c : Str) (w w' : World)
      → is_inline (block_of c) ≡ false
      → delete_block c w ≡ (ok tt, w')
      → has_block c w' ≡ ok false
  pub has-delete_ne :
      (j c : Str) (w : World)
      → block_of j ≢ block_of c
      → has_block j (delete_block c w).1 ≡ has_block j w
  -- A walk visits its root and the links of what it visits, and nothing else.
  pub walk-root :
      (f : Str → Result (List Link)) (c : Str) (before after : List Str)
      → walk f c before ≡ ok after
      → In c after
  pub walk-closed :
      (f : Str → Result (List Link)) (c : Str) (after : List Str) (j : Str)
      → walk f c [] ≡ ok after
      → In j after
      → (links : List Link) × (f j ≡ ok links) × ((l : Link) → In l links → In l.hash after)
  pub walk-only :
      (P : Str → Type 0) (f : Str → Result (List Link)) (c : Str) (after : List Str)
      → walk f c [] ≡ ok after
      → P c
      → ((j : Str) (links : List Link) (l : Link) → P j → f j ≡ ok links → In l links → P l.hash)
      → (j : Str) → In j after
      → P j
