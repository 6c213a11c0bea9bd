-- ===== src/Tests/Blocks.antt =====
-- A DAG of blocks that hold the hash of one child or none, a file being its own CID; and a file system
-- of paths over it.
use mathlib.Core.Path.{subst}
use ipfs_lite.Prelude.{
  ◌≡◌, ◌≢◌, refl, sym, ◌∙◌, ap, inl, inr, arith, ℕ, zero, suc, ◌+◌, ◌<◌, Bool, true, false, List,
  [], ◌∷◌, none, some, Str, Dict, lookup, insert, lookup-insert_self, str_eq, str_eq_iff, Error,
  Result, ok, err, panic, In, if◌then◌else◌, Bool-cases,
}
use ipfs_lite.Extern.Dag.{Dag, DagNode, ReadEnd, more, eof}
use ipfs_lite.Replication.Types.{Link}
use ipfs_lite.Tests.Worlds.{delete_map, lookup-delete_map}

abbrev pub links_of : Str → List Link
links_of [] = []
links_of (c ∷ s) = record { name = []; size = 0; hash = c ∷ s } ∷ []

abbrev pub leaf : Str → DagNode
leaf c = record { cid = c; links = [] }

abbrev pub held : Str → Dict Str → Bool
held c w = elim (lookup c w) [ none ↦ false | some b ↦ true ]

abbrev node_at : Str → Dict Str → Result DagNode
node_at c w = elim (lookup c w) [ none ↦ err (Error.foreign 1) | some b ↦ ok (leaf c) ]

abbrev links_at : Str → Dict Str → Result (List Link)
links_at c w = elim (lookup c w) [ none ↦ err (Error.foreign 1) | some b ↦ ok (links_of b) ]

abbrev bytes_at : DagNode → Dict Str → Result Str
bytes_at n w = elim (lookup n.cid w) [ none ↦ err (Error.foreign 1) | some b ↦ ok n.cid ]

abbrev pub lay : Str → Dict Str → Result DagNode × Dict Str
lay b w = (ok (leaf b), insert b [] w)

pub read-lay :
    (content : Str) (ch b : Str) (n : DagNode) (w w' : Dict Str)
    → ◌≡◌ {A = Result Str} (ok content) (ok ch)
    → ◌≡◌ {A = Result Str} (ok ch) (ok b)
    → lay b w ≡ (ok n, w')
    → (node_at n.cid w' ≡ ok n) × (bytes_at n w' ≡ ok content)
read-lay content ch b n w w' e e' h =
    let there = lookup-insert_self b [] w in (ground (arith, there), ground (arith, there))

-- A walk to a root without links, or with one link that leads to itself or nowhere.
abbrev walk_one : (Str → Result (List Link)) → Str → List Str → Result (List Str)
walk_one f c before = elim (f c) [
  | ok [] ↦ ok (c ∷ before)
  | ok (l ∷ []) ↦ elim (f l.hash) [
    | ok [] ↦ ok (l.hash ∷ c ∷ before)
    | ok (k ∷ []) ↦ if str_eq k.hash l.hash then ok (l.hash ∷ c ∷ before) else err (Error.foreign 2)
    | ok (k ∷ k' ∷ ks) ↦ err (Error.foreign 2)
    | err e ↦ err e
    | panic ↦ panic
  ]
  | ok (l ∷ l' ∷ ls) ↦ err (Error.foreign 2)
  | err e ↦ err e
  | panic ↦ panic
]

-- What a walk found: the root alone, or the root and its one link.
data Walked (f : Str → Result (List Link)) (c : Str) (before after : List Str) : Type 0 where
  alone : f c ≡ ok [] → after ≡ c ∷ before → Walked f c before after
  linked :
      (l : Link) (ks : List Link)
      → f c ≡ ok (l ∷ [])
      → f l.hash ≡ ok ks
      → ((k : Link) → In k ks → k.hash ≡ l.hash)
      → after ≡ l.hash ∷ c ∷ before
      → Walked f c before after

walk_one_lem :
    (f : Str → Result (List Link)) (c : Str) (before after : List Str)
    → walk_one f c before ≡ ok after
    → Walked f c before after
walk_one_lem f c before after h = go (f c) refl
  where
    below :
        (l : Link)
        → f c ≡ ok (l ∷ [])
        → (r : Result (List Link)) → f l.hash ≡ r
        → Walked f c before after
    below l e (ok []) e' = linked l [] e e' (λ k i. absurd i) (ground arith)
    below l e (ok (k ∷ [])) e' = elim (Bool-cases (str_eq k.hash l.hash)) [
      | inl same ↦
          linked l (k ∷ []) e e'
            (λ j i. elim i [
              | inl s ↦ ap (λ (x : Link). x.hash) s ∙ (str_eq_iff k.hash l.hash).0 same
              | inr n ↦ absurd n
            ])
            (ground arith)
      | inr other ↦ absurd (ground arith)
    ]
    below l e (ok (k ∷ k' ∷ ks)) e' = absurd (ground arith)
    below l e (err x) e' = absurd (ground arith)
    below l e panic e' = absurd (ground arith)

    go : (r : Result (List Link)) → f c ≡ r → Walked f c before after
    go (ok []) e = alone e (ground arith)
    go (ok (l ∷ [])) e = below l e (f l.hash) refl
    go (ok (l ∷ l' ∷ ls)) e = absurd (ground arith)
    go (err x) e = absurd (ground arith)
    go panic e = absurd (ground arith)

pub walk_one-root :
    (f : Str → Result (List Link)) (c : Str) (before after : List Str)
    → walk_one f c before ≡ ok after
    → In c after
walk_one-root f c before after h = elim (walk_one_lem f c before after h) [
  | alone e s ↦ subst (In c) (sym s) (inl refl)
  | linked l ks e e' closed s ↦ subst (In c) (sym s) (inr (inl refl))
]

pub walk_one-closed :
    (f : Str → Result (List Link)) (c : Str) (after : List Str) (j : Str)
    → walk_one f c [] ≡ ok after
    → In j after
    → (links : List Link) × (f j ≡ ok links) × ((l : Link) → In l links → In l.hash after)
walk_one-closed f c after j h i = elim (walk_one_lem f c [] after h) [
  | alone e s ↦ elim (subst (In j) s i) [
    | inl here ↦ ([], ap f here ∙ e, λ l k. absurd k)
    | inr out ↦ absurd out
  ]
  | linked l ks e e' closed s ↦ elim (subst (In j) s i) [
    | inl child ↦ (ks, ap f child ∙ e', λ k m. subst (In k.hash) (sym s) (inl (closed k m)))
    | inr (inl root) ↦ (
      l ∷ [],
      ap f root ∙ e,
      λ k m. elim m [
        | inl same ↦ subst (In k.hash) (sym s) (inl (ap (λ (x : Link). x.hash) same))
        | inr out ↦ absurd out
      ],
    )
    | inr (inr out) ↦ absurd out
  ]
]

pub walk_one-only :
    (P : Str → Type 0) (f : Str → Result (List Link)) (c : Str) (after : List Str)
    → walk_one f c [] ≡ ok after
    → P c
    → ((j : Str) (links : List Link) (l : Link) → P j → f j ≡ ok links → In l links → P l.hash)
    → (j : Str) → In j after
    → P j
walk_one-only P f c after h base step j i = elim (walk_one_lem f c [] after h) [
  | alone e s ↦ elim (subst (In j) s i) [
    | inl here ↦ subst P (sym here) base
    | inr out ↦ absurd out
  ]
  | linked l ks e e' closed s ↦ elim (subst (In j) s i) [
    | inl child ↦ subst P (sym child) (step c (l ∷ []) l base e (inl refl))
    | inr (inl root) ↦ subst P (sym root) base
    | inr (inr out) ↦ absurd out
  ]
]

lookup-delete_map_ne : (j k : Str) (w : Dict Str) → j ≢ k → lookup j (delete_map k w) ≡ lookup j w
unfolding lookup
lookup-delete_map_ne j k [] ne = refl
lookup-delete_map_ne j k ((i, u) ∷ w) ne =
    ground (arith, lookup-delete_map_ne j k w ne, str_eq_iff i k, str_eq_iff i j)

pub has-delete_blocks :
    (c : Str) (w w' : Dict Str)
    → false ≡ false
    → ◌≡◌ {A = Result (Unit {0}) × Dict Str} (ok tt, delete_map c w) (ok tt, w')
    → ◌≡◌ {A = Result Bool} (ok (held c w')) (ok false)
has-delete_blocks c w w' plain h =
    let same : delete_map c w ≡ w' = ground arith in ground (arith, lookup-delete_map c w, same)

pub has-delete_blocks_ne :
    (j c : Str) (w : Dict Str)
    → j ≢ c
    → ◌≡◌ {A = Result Bool} (ok (held j (delete_map c w))) (ok (held j w))
has-delete_blocks_ne j c w ne = ground (arith, lookup-delete_map_ne j c w ne)

pub has-same_block :
    (j c : Str) (w : Dict Str) → j ≡ c → ◌≡◌ {A = Result Bool} (ok (held j w)) (ok (held c w))
has-same_block j c w e = ap (λ x. ok (held x w)) e

-- A reader of so many bytes gives them one by one.
abbrev read_one : ℕ → ℕ → (ℕ × ReadEnd) × ℕ
read_one zero size = ((0, eof), 0)
read_one (suc r) size = ((1, more), r)

pub left-read_one : (r r' size n : ℕ) (e : ReadEnd) → read_one r size ≡ ((n, e), r') → r ≡ n + r'
left-read_one zero r' size n e h = ground arith
left-read_one (suc r) r' size n e h = ground arith

pub left-eof_one : (r r' size : ℕ) → read_one r size ≡ ((0, eof), r') → r' ≡ 0
left-eof_one zero r' size h = ground arith
left-eof_one (suc r) r' size h = absurd (ground arith)

pub reads-more_one : (r r' size n : ℕ) → read_one r size ≡ ((n, more), r') → r' < r
reads-more_one zero r' size n h = absurd (ground arith)
reads-more_one (suc r) r' size n h = ground arith

pub reads-eof_one : (r r' size n : ℕ) → read_one r size ≡ ((n, eof), r') → n ≢ 0 → r' < r
reads-eof_one zero r' size n h ne = absurd (ground arith)
reads-eof_one (suc r) r' size n h ne = absurd (ground arith)

abbrev pub count_of : Str → ℕ
count_of [] = 0
count_of (c ∷ s) = suc (count_of s)

abbrev pub block_dag : Dag
block_dag = record {
  World = Dict Str;
  Prefix = Unit;
  Chunks = Str;
  Builder = Str;
  Reader = ℕ;
  cid_string = λ c. c;
  prefix_for_cid_version = λ v. ok tt;
  to_lower = λ s. s;
  hash_code = λ s. some 0x12;
  with_hash = λ code p. p;
  from_string = λ content spec. ok content;
  new_builder = λ raw nocopy p ch. ok ch;
  balanced = lay;
  trickle = lay;
  get_node = node_at;
  read_node = bytes_at;
  new_reader = λ n w. ok (count_of n.cid);
  read = read_one;
  has_block = λ c w. ok (held c w);
  delete_block = λ c w. (ok tt, delete_map c w);
  get_links = links_at;
  validate_cid = λ c. ok tt;
  is_insecure = λ e. false;
  walk = walk_one;
  read-balanced =
      λ content spec raw nocopy p ch b n w w' e e' h. read-lay content ch b n w w' e e' h;
  read-trickle =
      λ content spec raw nocopy p ch b n w w' e e' h. read-lay content ch b n w w' e e' h;
  left = λ r. r;
  reads = λ r. r;
  left-read = left-read_one;
  left-eof = left-eof_one;
  reads-more = reads-more_one;
  reads-eof = reads-eof_one;
  block_of = λ c. c;
  is_inline = λ b. false;
  has-same = has-same_block;
  has-delete = has-delete_blocks;
  has-delete_ne = has-delete_blocks_ne;
  walk-root = walk_one-root;
  walk-closed = walk_one-closed;
  walk-only = walk_one-only;
}
