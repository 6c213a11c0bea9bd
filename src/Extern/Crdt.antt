-- ===== src/Extern/Crdt.antt =====
-- github.com/ipfs/go-ds-crdt behind the go-datastore interface: a replicated key-value store. Its
-- hooks are run apart from the calls below, as events of the manager.
use ipfs_lite.Prelude.{◌≡◌, ◌≢◌, ◌++◌, [], ◌∷◌, List, true, Str, has_prefix, Result, ok, In}
use ipfs_lite.Prelude.Io.{Io}

pub record Crdt : Type 1 where
  pub World : Type 0
  -- `datastore.NewKey(s).String()`
  pub new_key : Str → Str
  pub get : Str → World → Result Str
  pub put : Str → Str → Io World (Unit {0})
  pub delete : Str → Io World (Unit {0})
  -- `Query` with a prefix: the keys and values, in the order of the store.
  pub query : Str → World → Result (List (Str × Str))
  pub get-put : (k v : Str) (w w' : World) → put k v w ≡ (ok tt, w') → get k w' ≡ ok v
  pub get-put_ne : (j k v : Str) (w : World) → j ≢ k → get j (put k v w).1 ≡ get j w
  pub get-delete : (k b : Str) (w w' : World) → delete k w ≡ (ok tt, w') → get k w' ≢ ok b
  -- A query finds every key below its prefix.
  pub query-get :
      (p k v : Str) (w : World) (es : List (Str × Str))
      → query p w ≡ ok es
      → get k w ≡ ok v
      → has_prefix k (p ++ b'/' ∷ []) ≡ true
      → In (k, v) es
