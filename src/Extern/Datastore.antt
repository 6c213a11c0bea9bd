-- ===== src/Extern/Datastore.antt =====
-- github.com/ipfs/go-datastore: a key-value store that can fail.
use ipfs_lite.Prelude.{◌≡◌, ◌≢◌, Str, Result, ok}

pub record Datastore : Type 1 where
  pub World : Type 0
  pub get : Str → World → Result Str
  pub put : Str → Str → World → Result (Unit {0}) × World
  -- What a successful `Put` stored, `Get` returns.
  pub get-put : (k v : Str) (w w' : World) → put k v w ≡ (ok tt, w') → get k w' ≡ ok v
  -- A `Put` touches no other key.
  pub get-put_ne : (j k v : Str) (w : World) → j ≢ k → get j (put k v w).1 ≡ get j w
