-- ===== src/Prelude/Text.antt =====
-- Go strings and byte slices as lists of byte values, and the tests the program makes on them.
use Prim.Native.Nat.{ℕ, ◌-◌}
use Prim.Native.Char.{code}
use Prim.Native.String.{String}
use mathlib.Core.Path.{◌≡◌, refl}
use mathlib.Core.Logic.{◌↔◌, ◌≢◌}
use mathlib.Core.Bool.{Bool, true, false, ◌&&◌}
use mathlib.Core.List.{List, [], ◌∷◌, ◌++◌}
use native.Mathlib.Omega.{arith}
use ipfs_lite.Prelude.Tests.{◌==◌, if◌then◌else◌}
use ipfs_lite.Prelude.Lists.{length, take, drop}

-- A string, and a `[]byte`: its bytes.
abbrev pub Str : Type 0
Str = List ℕ

-- The bytes of an ASCII literal. `String` has its own `[]` and `∷`.
abbrev pub codes : String → Str
codes String.[] = []
codes (String.◌∷◌ c s) = code c ∷ codes s

unfoldable pub str_eq : Str → Str → Bool
str_eq [] [] = true
str_eq [] (d ∷ t) = false
str_eq (c ∷ s) [] = false
str_eq (c ∷ s) (d ∷ t) = (c == d) && str_eq s t

pub str_eq_iff : (s t : Str) → (str_eq s t ≡ true) ↔ (s ≡ t)
unfolding str_eq
str_eq_iff [] [] = ground arith
str_eq_iff [] (d ∷ t) = ground arith
str_eq_iff (c ∷ s) [] = ground arith
str_eq_iff (c ∷ s) (d ∷ t) = ground (arith, str_eq_iff s t)

pub str_eq_refl : (s : Str) → str_eq s s ≡ true
str_eq_refl s = (str_eq_iff s s).1 refl

-- `strings.HasPrefix(s, p)`
unfoldable pub has_prefix : Str → Str → Bool
has_prefix s [] = true
has_prefix [] (d ∷ p) = false
has_prefix (c ∷ s) (d ∷ p) = (c == d) && has_prefix s p

pub has_prefix-append : (p s : Str) → has_prefix (p ++ s) p ≡ true
unfolding has_prefix
has_prefix-append [] s = refl
has_prefix-append (c ∷ p) s = ground (arith, has_prefix-append p s)

-- `strings.Split(s, "/")`: the text up to the first slash, and the pieces after it.
unfoldable pub split_head : Str → Str
split_head [] = []
split_head (c ∷ s) = if c == b'/' then [] else c ∷ split_head s

unfoldable pub split_rest : Str → List Str
unfolding split_head
split_rest [] = []
split_rest (c ∷ s) = let rest = split_rest s in if c == b'/' then split_head s ∷ rest else rest

unfoldable pub split_slash : Str → List Str
split_slash s = split_head s ∷ split_rest s

-- A text without a slash.
abbrev pub NoSlash : Str → Type 0
NoSlash [] = Unit
NoSlash (c ∷ s) = (c ≢ b'/') × NoSlash s

pub split_head-append : (p s : Str) → NoSlash p → split_head (p ++ b'/' ∷ s) ≡ p
unfolding split_head
split_head-append [] s h = ground arith
split_head-append (c ∷ p) s h = ground (arith, split_head-append p s h.1)

pub split_rest-append : (p s : Str) → NoSlash p → split_rest (p ++ b'/' ∷ s) ≡ split_slash s
unfolding split_rest split_slash
split_rest-append [] s h = ground arith
split_rest-append (c ∷ p) s h = ground (arith, split_rest-append p s h.1)

pub split_head-plain : (p : Str) → NoSlash p → split_head p ≡ p
unfolding split_head
split_head-plain [] h = refl
split_head-plain (c ∷ p) h = ground (arith, split_head-plain p h.1)

-- `strings.TrimSuffix(s, e)`
unfoldable pub trim_suffix : Str → Str → Str
trim_suffix s e = let n = length s - length e in if str_eq (drop n s) e then take n s else s
