-- ===== src/Tests/Disk.antt =====
-- A disk with a lock: the files are a map, beside whether the lock is held.
use ipfs_lite.Prelude.{
  ◌≡◌, refl, arith, Bool, true, false, [], ◌∷◌, Str, Dict, Error, Result, ok, err,
}
use ipfs_lite.Extern.FileSystem.{FileSystem, found}
use ipfs_lite.Extern.Disk.{Disk}
use ipfs_lite.Tests.Worlds.{map_files, map_datastore}

abbrev Held : Type 0
Held = Bool × Dict Str

abbrev held_write : Str → Str → Held → Result (Unit {0}) × Held
held_write p b w = let (r, d) = map_files.write_file p b w.1 in (r, (w.0, d))

pub held_read :
    (p b : Str) (w w' : Held) → held_write p b w ≡ (ok tt, w') → map_files.read_file p w'.1 ≡ ok b
held_read p b w w' h = map_files.read-write p b w.1 w'.1 (ground arith)

pub held_stat :
    (p b : Str) (w w' : Held) → held_write p b w ≡ (ok tt, w') → map_files.stat p w'.1 ≡ found
held_stat p b w w' h = map_files.stat-write p b w.1 w'.1 (ground arith)

abbrev pub locked_files : FileSystem
locked_files = record {
  World = Held;
  join = map_files.join;
  stat = λ p w. map_files.stat p w.1;
  create = λ p w. let (r, d) = map_files.create p w.1 in (r, (w.0, d));
  read_file = λ p w. map_files.read_file p w.1;
  write_file = held_write;
  read-write = λ p b w w' h. held_read p b w w' h;
  stat-write = λ p b w w' h. held_stat p b w w' h;
}

abbrev take_lock : Str → Str → Held → Result (Unit {0}) × Held
take_lock p f (true, d) = (err (Error.foreign 3), (true, d))
take_lock p f (false, d) = (ok tt, (true, d))

pub take_lock-held : (p f : Str) (w w' : Held) → take_lock p f w ≡ (ok tt, w') → w'.0 ≡ true
take_lock-held p f (true, d) w' h = absurd (ground arith)
take_lock-held p f (false, d) w' h = ground arith

pub take_lock-refused :
    (p f : Str) (e : Error) (w w' : Held) → take_lock p f w ≡ (err e, w') → w'.0 ≡ w.0
take_lock-refused p f e (true, d) w' h = ground arith
take_lock-refused p f e (false, d) w' h = absurd (ground arith)

-- Only an empty datastore closes.
abbrev close_map : Dict Str → Held → Result (Unit {0}) × Held
close_map [] w = (ok tt, w)
close_map (e ∷ d) w = (err (Error.foreign 4), w)

pub close_keeps : (d : Dict Str) (w : Held) → (close_map d w).1.0 ≡ w.0
close_keeps [] w = refl
close_keeps (e ∷ d) w = refl

abbrev pub map_disk : Disk locked_files map_datastore
map_disk = record {
  expand = λ p. ok p;
  dir = λ p. p;
  mkdir_all = λ p w. (ok tt, w);
  atomic_new = λ p w. (ok tt, w);
  atomic_write = λ p b w. (ok tt, (w.0, (p, b) ∷ w.1));
  atomic_close = λ p w. (ok tt, w);
  lock = take_lock;
  unlock = λ w. (ok tt, (false, w.1));
  open_datastore = λ p w. (ok [], w);
  close_datastore = close_map;
  locked = λ w. w.0;
  locked-lock = take_lock-held;
  locked-lock_err = take_lock-refused;
  locked-unlock = λ w. refl;
  locked-create = λ p w. refl;
  locked-write = λ p b w. refl;
  locked-open = λ p w. refl;
  locked-close = close_keeps;
}
