-- ===== src/Extern/Floats.antt =====
-- Go's float32: the conversion and the division that the program makes.
use ipfs_lite.Prelude.{Int64}

pub record Float32 (F : Type 0) : Type 0 where
  pub zero : F
  pub of_int64 : Int64 → F
  pub div : F → F → F
