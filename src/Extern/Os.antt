-- ===== src/Extern/Os.antt =====
-- The calls of os, os/user and io that the commands make on files. A file that a command creates is
-- written through its handle.
use ipfs_lite.Prelude.{◌≡◌, Bool, true, false, List, [], Str, Int64, Result, ok, In}
use ipfs_lite.Prelude.Io.{Io}

pub record Os : Type 1 where
  pub World : Type 0
  pub File : Type 0
  -- `user.Current` and its HomeDir
  pub home_dir : Result Str
  -- `os.Lstat`: the size, or its error
  pub lstat : Str → World → Result Int64
  -- whether `os.Stat` returns no error
  pub stat : Str → World → Bool
  -- all the paths of at most the length of the longest that the system takes that name a file
  pub names : World → List Str
  -- `os.Open`, and all that the file reads as
  pub read_file : Str → World → Result Str
  -- `os.Create`
  pub create : Str → Io World File
  -- the path names the file of the handle
  pub is_file : File → Str → World → Bool
  -- a `Write` at the start of a file that is empty
  pub write : File → Str → Io World (Unit {0})
  -- A disk holds finitely many files, and a path has a longest length.
  pub names-stat : (p : Str) (w : World) → stat p w ≡ true → In p (names w)
  -- A file that was created is none of those that stood there.
  pub is_file-create :
      (p : Str) (f : File) (w w' : World) → create p w ≡ (ok f, w') → is_file f p w' ≡ true
  pub read-create :
      (p : Str) (f : File) (w w' : World) → create p w ≡ (ok f, w') → read_file p w' ≡ ok []
  pub create-new :
      (p q : Str) (f : File) (w w' : World)
      → create p w ≡ (ok f, w')
      → stat p w ≡ false
      → stat q w ≡ true
      → is_file f q w' ≡ false
  pub read-create_new :
      (p q : Str) (f : File) (w w' : World)
      → create p w ≡ (ok f, w')
      → stat p w ≡ false
      → stat q w ≡ true
      → read_file q w' ≡ read_file q w
  -- What is written to a file is what the file reads as, and no other file changes.
  pub read-write :
      (p b : Str) (f : File) (w w' : World)
      → is_file f p w ≡ true
      → read_file p w ≡ ok []
      → write f b w ≡ (ok tt, w')
      → read_file p w' ≡ ok b
  pub read-write_other :
      (q b : Str) (f : File) (w w' : World)
      → is_file f q w ≡ false
      → write f b w ≡ (ok tt, w')
      → read_file q w' ≡ read_file q w
