-- ===== src/Tests/Worlds.antt =====
-- The interfaces of the other packages, instantiated: stores are maps and never fail, keys print as
-- themselves, and a Bloom filter is the list of its strings.
use mathlib.Core.Path.{subst}
use ipfs_lite.Prelude.{
  split_slash, ℕ, ◌≡◌, ◌≢◌, inl, inr, arith, Bool, true, false, ◌||◌, List, [], ◌∷◌, ◌++◌, none,
  some, ok, err, Str, Dict, lookup, insert, lookup-insert_self, lookup-insert_ne, str_eq,
  str_eq_iff, str_eq_refl, has_prefix, In, Error, Result, if◌then◌else◌, if_cases, Bool-cases,
}
use ipfs_lite.Extern.Datastore.{Datastore}
use ipfs_lite.Extern.FileSystem.{FileSystem, Stat, found, not_exist}
use ipfs_lite.Extern.Bloom.{Bloom}
use ipfs_lite.Extern.Crdt.{Crdt}
use ipfs_lite.Extern.Keys.{Keys}
use ipfs_lite.Extern.KeyParts.{KeyParts}
use ipfs_lite.Extern.Floats.{Float32}

abbrev pub get_map : Str → Dict Str → Result Str
get_map k w = elim (lookup k w) [ none ↦ err (Error.foreign 1) | some v ↦ ok v ]

abbrev pub put_map : Str → Str → Dict Str → Result (Unit {0}) × Dict Str
put_map k v w = (ok tt, insert k v w)

pub get-put_map : (k v : Str) (w w' : Dict Str) → put_map k v w ≡ (ok tt, w') → get_map k w' ≡ ok v
get-put_map k v w w' h = ground (arith, lookup-insert_self k v w)

pub get-put_map_ne :
    (j k v : Str) (w : Dict Str) → j ≢ k → get_map j (put_map k v w).1 ≡ get_map j w
get-put_map_ne j k v w ne = rw (lookup-insert_ne k j v w ne, get_map)

abbrev pub map_datastore : Datastore
map_datastore = record {
  World = Dict Str;
  get = get_map;
  put = put_map;
  get-put = get-put_map;
  get-put_ne = get-put_map_ne;
}

abbrev stat_map : Str → Dict Str → Stat
stat_map k w = elim (lookup k w) [ none ↦ not_exist | some _ ↦ found ]

pub stat-write_map :
    (k v : Str) (w w' : Dict Str) → put_map k v w ≡ (ok tt, w') → stat_map k w' ≡ found
stat-write_map k v w w' h = ground (arith, lookup-insert_self k v w)

abbrev pub map_files : FileSystem
map_files = record {
  World = Dict Str;
  join = λ a b. a ++ b'/' ∷ b;
  stat = stat_map;
  create = λ k w. put_map k [] w;
  read_file = get_map;
  write_file = put_map;
  read-write = get-put_map;
  stat-write = stat-write_map;
}

abbrev passes : List Str → Str → Bool
passes [] t = false
passes (s ∷ f) t = str_eq s t || passes f t

pub passes-add : (f : List Str) (s : Str) → passes (s ∷ f) s ≡ true
passes-add f s = rw (str_eq_refl s)

pub passes-add_mono : (f : List Str) (s t : Str) → passes f t ≡ true → passes (s ∷ f) t ≡ true
passes-add_mono f s t h = ground arith

instance abbrev pub list_bloom : Bloom (List Str)
list_bloom = record {
  new = λ m k. [];
  add_string = λ f s. s ∷ f;
  test_string = passes;
  test-add = passes-add;
  test-add_mono = passes-add_mono;
}

abbrev pub query_map : Str → Dict Str → List (Str × Str)
query_map p [] = []
query_map p ((k, v) ∷ w) =
    let rest = query_map p w in if has_prefix k (p ++ b'/' ∷ []) then (k, v) ∷ rest else rest

pub query-get_map :
    (p k v : Str) (w : Dict Str)
    → get_map k w ≡ ok v
    → has_prefix k (p ++ b'/' ∷ []) ≡ true
    → In (k, v) (query_map p w)
unfolding lookup
query-get_map p k v [] h pre = absurd (ground arith)
query-get_map p k v ((j, u) ∷ w) h pre =
    if_cases (In (k, v)) (has_prefix j (p ++ b'/' ∷ []))
      (λ below. elim (Bool-cases (str_eq j k)) [
        | inl same ↦ inl (ground (arith, str_eq_iff j k))
        | inr other ↦ inr (query-get_map p k v w (ground arith) pre)
      ])
      (λ outside. elim (Bool-cases (str_eq j k)) [
        | inl same ↦ absurd (ground (arith, str_eq_iff j k))
        | inr other ↦ query-get_map p k v w (ground arith) pre
      ])

abbrev pub delete_map : Str → Dict Str → Dict Str
delete_map k [] = []
delete_map k ((j, u) ∷ w) = let rest = delete_map k w in if str_eq j k then rest else (j, u) ∷ rest

pub lookup-delete_map : (k : Str) (w : Dict Str) → lookup k (delete_map k w) ≡ none
unfolding lookup
lookup-delete_map k [] = ground arith
lookup-delete_map k ((j, u) ∷ w) = ground (arith, lookup-delete_map k w)

pub get-delete_map :
    (k b : Str) (w w' : Dict Str)
    → ◌≡◌ {A = Result (Unit {0}) × Dict Str} (ok tt, delete_map k w) (ok tt, w')
    → get_map k w' ≢ ok b
get-delete_map k b w w' h e =
    let same : delete_map k w ≡ w' = ground arith in
    absurd (ground (arith, lookup-delete_map k w, same))

pub query-get_store :
    (p k v : Str) (w : Dict Str) (es : List (Str × Str))
    → ok (query_map p w) ≡ ok es
    → get_map k w ≡ ok v
    → has_prefix k (p ++ b'/' ∷ []) ≡ true
    → In (k, v) es
query-get_store p k v w es e h pre =
    let same : query_map p w ≡ es = cc in subst (In (k, v)) same (query-get_map p k v w h pre)

abbrev pub map_store : Crdt
map_store = record {
  World = Dict Str;
  new_key = λ k. k;
  get = get_map;
  put = put_map;
  delete = λ k w. (ok tt, delete_map k w);
  query = λ p w. ok (query_map p w);
  get-put = get-put_map;
  get-put_ne = get-put_map_ne;
  get-delete = get-delete_map;
  query-get = query-get_store;
}

abbrev pub plain_keys : Keys
plain_keys = record {
  PrivKey = Str;
  PubKey = Str;
  public = λ k. k;
  raw = λ k. ok k;
  base64 = λ b. b;
  base64_injective = λ a b e. e;
  id_string = λ i. i;
  sum_sha256 = λ b. ok b;
  format_int = λ n. n ∷ [];
}

-- The number of a size, and the quotient, in place of a float.
instance abbrev pub whole_floats : Float32 ℕ
whole_floats = record { zero = 0; of_int64 = λ n. n; div = λ a b. a }

abbrev pieces : Str → List Str
pieces [] = []
pieces (c ∷ s) = split_slash s

abbrev pub plain_parts : KeyParts
plain_parts = record {
  key_list = pieces;
  key_name = λ k. k;
  key_list-rooted = λ s i. split_slash s;
}
