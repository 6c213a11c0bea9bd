-- ===== src/Extern/Disk.antt =====
-- What the repository uses beside plain files: go-homedir, go-fs-lock, facebookgo/atomicfile,
-- go-ds-leveldb. `locked` is whether this process holds the lock file of the repository.
use ipfs_lite.Prelude.{◌≡◌, Bool, true, false, Str, Error, Result, ok, err}
use ipfs_lite.Prelude.Io.{Io}
use ipfs_lite.Extern.FileSystem.{FileSystem}
use ipfs_lite.Extern.Datastore.{Datastore}

pub record Disk (fs : FileSystem) (ds : Datastore) : Type 0 where
  -- `homedir.Expand(filepath.Clean(p))`
  pub expand : Str → Result Str
  -- `filepath.Dir`
  pub dir : Str → Str
  pub mkdir_all : Str → Io fs.World (Unit {0})
  -- `atomicfile.New`, `Write` and `Close`, at the path that the file replaces
  pub atomic_new : Str → Io fs.World (Unit {0})
  pub atomic_write : Str → Str → Io fs.World (Unit {0})
  pub atomic_close : Str → Io fs.World (Unit {0})
  -- `lockfile.Lock`, and `Close` of what it returns
  pub lock : Str → Str → Io fs.World (Unit {0})
  pub unlock : Io fs.World (Unit {0})
  pub open_datastore : Str → Io fs.World ds.World
  pub close_datastore : ds.World → Io fs.World (Unit {0})
  pub locked : fs.World → Bool
  pub locked-lock : (p f : Str) (w w' : fs.World) → lock p f w ≡ (ok tt, w') → locked w' ≡ true
  pub locked-lock_err :
      (p f : Str) (e : Error) (w w' : fs.World) → lock p f w ≡ (err e, w') → locked w' ≡ locked w
  pub locked-unlock : (w : fs.World) → locked (unlock w).1 ≡ false
  -- The other calls leave the lock file alone.
  pub locked-create : (p : Str) (w : fs.World) → locked (fs.create p w).1 ≡ locked w
  pub locked-write : (p b : Str) (w : fs.World) → locked (fs.write_file p b w).1 ≡ locked w
  pub locked-open : (p : Str) (w : fs.World) → locked (open_datastore p w).1 ≡ locked w
  pub locked-close : (d : ds.World) (w : fs.World) → locked (close_datastore d w).1 ≡ locked w
