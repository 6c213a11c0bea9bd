-- ===== src/Extern/FileSystem.antt =====
-- The calls of os and path/filepath that the program makes on files.
use ipfs_lite.Prelude.{◌≡◌, Str, Error, Result, ok}
use ipfs_lite.Prelude.Io.{Io}

pub data Stat : Type 0 where
  found not_exist : Stat
  failed : Error → Stat

pub record FileSystem : Type 1 where
  pub World : Type 0
  -- `filepath.Join`
  pub join : Str → Str → Str
  pub stat : Str → World → Stat
  pub create : Str → Io World (Unit {0})
  pub read_file : Str → World → Result Str
  pub write_file : Str → Str → Io World (Unit {0})
  -- After a successful write the file is there, with what was written.
  pub read-write :
      (p b : Str) (w w' : World) → write_file p b w ≡ (ok tt, w') → read_file p w' ≡ ok b
  pub stat-write : (p b : Str) (w w' : World) → write_file p b w ≡ (ok tt, w') → stat p w' ≡ found
