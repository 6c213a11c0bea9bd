-- ===== src/Prelude/Words.antt =====
-- Go's int64 and int as 64-bit patterns with their wrap-around.
use Prim.Native.Nat.{ℕ, ◌+◌, ◌-◌, ◌%◌, ◌≤◌, ◌<◌}
use mathlib.Core.Path.{◌≡◌}
use native.Mathlib.Omega.{arith}

-- A value is the pattern of a two's complement number, below `int64_mod`.
abbrev pub Int64 : Type 0
Int64 = ℕ

abbrev pub int64_mod : ℕ
int64_mod = 0x1_0000_0000_0000_0000

abbrev pub add64 : Int64 → Int64 → Int64
add64 a b = (a + b) % int64_mod

abbrev pub sub64 : Int64 → Int64 → Int64
sub64 a b = (a + int64_mod - b) % int64_mod

-- Without an overflow the difference is the plain one.
pub sub64-eq-sub : (a b : Int64) → b ≤ a → a < int64_mod → sub64 a b ≡ a - b
sub64-eq-sub a b h k = omega arith
