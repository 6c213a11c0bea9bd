-- ===== src/Extern/Json.antt =====
-- encoding/json at one type: `Marshal`, and `Unmarshal` into a fresh value.
use ipfs_lite.Prelude.{arith, ◌≡◌, Option, none, some, Str, Error, Result, ok, err}

pub record Json (A : Type 0) : Type 0 where
  -- the value that `Unmarshal` fills
  pub fresh : A
  pub marshal : A → Result Str
  -- the value after the call, which an error may leave half filled
  pub unmarshal : Str → A × Option Error
  pub unmarshal-marshal : (a : A) (b : Str) → marshal a ≡ ok b → unmarshal b ≡ (a, none)

-- `Unmarshal`, where the caller drops the value on an error.
abbrev pub decode : {A : Type 0} ⦃j : Json A⦄ → Str → Result A
decode ⦃j⦄ b = let (a, failed) = j.unmarshal b in elim failed [ none ↦ ok a | some e ↦ err e ]

pub decode-marshal :
    {A : Type 0} ⦃j : Json A⦄ (a : A) (b : Str) → j.marshal a ≡ ok b → decode b ≡ ok a
decode-marshal ⦃j⦄ a b h = ground (arith, j.unmarshal-marshal a b h)
