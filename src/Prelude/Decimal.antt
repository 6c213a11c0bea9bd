-- ===== src/Prelude/Decimal.antt =====
-- `fmt.Sprintf("%d", n)` of a number that is not negative, and that it loses nothing.
use Prim.Native.Nat.{ℕ, zero, suc, ◌+◌, ◌-◌, ◌*◌, ◌/◌, ◌%◌, ◌≤◌, ◌<◌}
use mathlib.Core.Path.{◌≡◌, refl}
use mathlib.Core.Logic.{inl, inr}
use mathlib.Core.List.{[], ◌∷◌, ◌++◌}
use native.Mathlib.Omega.{arith}
use ipfs_lite.Prelude.Tests.{ltb, if◌then◌else◌, Bool-cases}
use ipfs_lite.Prelude.Text.{Str}

-- The digits, on fuel above the number.
unfoldable pub digits : ℕ → ℕ → Str
digits zero n = []
digits (suc fuel) n =
    let front = digits fuel (n / 10) in
    if ltb n 10 then (b'0' + n) ∷ [] else front ++ ((b'0' + n % 10) ∷ [])

unfoldable pub decimal : ℕ → Str
unfolding digits
decimal n = digits (suc n) n

-- The number that digits write, after what stands before them.
abbrev value : ℕ → Str → ℕ
value m [] = m
value m (c ∷ s) = value (m * 10 + (c - b'0')) s

value-snoc : (m : ℕ) (s : Str) (c : ℕ) → value m (s ++ (c ∷ [])) ≡ value m s * 10 + (c - b'0')
value-snoc m [] c = refl
value-snoc m (d ∷ s) c = value-snoc (m * 10 + (d - b'0')) s c

value-digits : (fuel n : ℕ) → n < fuel → value 0 (digits fuel n) ≡ n
unfolding digits
value-digits zero n h = absurd (omega arith)
value-digits (suc fuel) n h = elim (Bool-cases (ltb n 10)) [
  | inl small ↦ ground arith
  | inr big ↦
      let ten : 10 ≤ n = ground arith in
      let less : n / 10 < fuel = omega arith in
      ground (
        arith,
        value-snoc 0 (digits fuel (n / 10)) (b'0' + n % 10),
        value-digits fuel (n / 10) less,
      )
]

pub decimal_injective : (n m : ℕ) → decimal n ≡ decimal m → n ≡ m
unfolding decimal
decimal_injective n m h =
    ground (arith, value-digits (suc n) n (omega arith), value-digits (suc m) m (omega arith))
