-- ===== src/Prelude/Io.antt =====
-- Go code with effects: a world comes in, and a result and the next world come out. What a failed
-- call has written stays written.
use mathlib.Core.Path.{◌≡◌, refl, subst}
use mathlib.Core.Bool.{Bool, true, false}
use native.Mathlib.Omega.{arith}
use ipfs_lite.Prelude.Errors.{Error, Result, ok, err, panic}

abbrev pub Io : Type 0 → Type 0 → Type 0
Io W A = W → Result A × W

infixl 5 ◌>>=◌ ◌>>◌
abbrev pub ◌>>=◌ : {W A B : Type 0} → Io W A → (A → Io W B) → Io W B
◌>>=◌ m f w =
    let (r, w') = m w in elim r [ ok a ↦ f a w' | err e ↦ (err e, w') | panic ↦ (panic, w') ]

abbrev pub ◌>>◌ : {W A B : Type 0} → Io W A → Io W B → Io W B
m >> k = m >>= λ _. k

abbrev pub pure : {W A : Type 0} → A → Io W A
pure a w = (ok a, w)

-- `return nil, e`
abbrev pub fail : {W A : Type 0} → Error → Io W A
fail e w = (err e, w)

abbrev pub lift : {W A : Type 0} → Result A → Io W A
lift r w = (r, w)

abbrev pub gets : {W A : Type 0} → (W → Result A) → Io W A
gets f w = (f w, w)

-- `if !b { return e }`
abbrev pub check : {W : Type 0} → Bool → Error → Io W (Unit {0})
check true e = pure tt
check false e = fail e

-- A successful sequence is two successful steps.
pub bind-ok :
    {W A B : Type 0} (m : Io W A) (f : A → Io W B) (w : W) {b : B} {w2 : W}
    → (m >>= f) w ≡ (ok b, w2)
    → (a : A) × (w1 : W) × (m w ≡ (ok a, w1)) × (f a w1 ≡ (ok b, w2))
bind-ok {W} {A} {B} m f w {b} {w2} h = go (m w).0 refl
  where
    go :
        (r : Result A)
        → (m w).0 ≡ r
        → (a : A) × (w1 : W) × (m w ≡ (ok a, w1)) × (f a w1 ≡ (ok b, w2))
    go (ok a) e = (a, (m w).1, ground (arith), ground (arith))
    go (err e') e = absurd (ground (arith))
    go panic e = absurd (ground (arith))

pub lift-ok :
    {W A : Type 0} (r : Result A) (w : W) {a : A} {w' : W}
    → lift r w ≡ (ok a, w')
    → (r ≡ ok a) × (w' ≡ w)
lift-ok r w h = ground arith

-- A successful sequence that starts with a result is a successful result and a successful rest.
pub lift-bind-ok :
    {W A B : Type 0} (r : Result A) (f : A → Io W B) (w : W) {b : B} {w2 : W}
    → (lift r >>= f) w ≡ (ok b, w2)
    → (a : A) × (r ≡ ok a) × (f a w ≡ (ok b, w2))
lift-bind-ok (ok a) f w h = (a, refl, ground arith)
lift-bind-ok (err e) f w h = absurd (ground arith)
lift-bind-ok panic f w h = absurd (ground arith)

-- A call that keeps a property of the world, whatever it returns.
pub record Keeps {W A : Type 0} (P : W → Type 0) (m : Io W A) : Type 0 where
  pub keep : (w : W) → P w → P (m w).1

pub lift-keeps : {W A : Type 0} {P : W → Type 0} (r : Result A) → Keeps P (lift r)
lift-keeps r = record { keep = λ w h. h }

pub bind-keeps :
    {W A B : Type 0} {P : W → Type 0} {m : Io W A} {f : A → Io W B}
    → Keeps P m
    → ((a : A) → Keeps P (f a))
    → Keeps P (m >>= f)
bind-keeps {W} {A} {B} {P} {m} {f} km kf = record { keep = λ w h. go w h (m w).0 refl }
  where
    go : (w : W) → P w → (r : Result A) → (m w).0 ≡ r → P ((m >>= f) w).1
    go w h (ok a) e =
        let same : (f a (m w).1).1 ≡ ((m >>= f) w).1 = ground arith in
        subst P same ((kf a).keep (m w).1 (km.keep w h))
    go w h (err e') e =
        let same : (m w).1 ≡ ((m >>= f) w).1 = ground arith in subst P same (km.keep w h)
    go w h panic e =
        let same : (m w).1 ≡ ((m >>= f) w).1 = ground arith in subst P same (km.keep w h)
