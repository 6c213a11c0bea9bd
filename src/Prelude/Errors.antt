-- ===== src/Prelude/Errors.antt =====
-- What a fallible Go function returns: a value, an error value, or a panic.
use mathlib.Core.Bool.{Bool, true, false}
use mathlib.Core.Path.{◌≡◌, refl}
use native.Mathlib.Omega.{arith}
use Prim.Native.Nat.{ℕ}

-- An error that a call of another package returned, or one that the program makes itself.
pub data Error : Type 0 where
  foreign : ℕ → Error
  repo_closed no_state no_permission not_a_member content_not_found peer_offline : Error
  invalid_addr not_connected invalid_layout unknown_hash : Error
  node_not_running no_discovery no_adv_scan blank_group_key blank_passphrase : Error
  no_peers_connected no_peer_address daemon_not_running insecure_hash : Error
  unknown_file_type no_child bad_zeroconf end_of_file : Error

pub data Result {ℓ} (A : Type ℓ) : Type ℓ where
  ok : A → Result A
  err : Error → Result A
  panic : Result A

infixl 5 ◌>>=◌ ◌>>◌
abbrev pub ◌>>=◌ {ℓ κ} : {A : Type ℓ} {B : Type κ} → Result A → (A → Result B) → Result B
ok a >>= f = f a
err e >>= f = err e
panic >>= f = panic

abbrev pub ◌>>◌ {ℓ κ} : {A : Type ℓ} {B : Type κ} → Result A → Result B → Result B
m >> k = m >>= λ _. k

-- `if !b { return e }`
abbrev pub check : Bool → Error → Result (Unit {0})
check true e = ok tt
check false e = err e

-- A sequence of results that is a value has a value first, and is one from there on.
pub ok-bind {ℓ κ} :
    {A : Type ℓ} {B : Type κ} (r : Result A) (f : A → Result B) {b : B}
    → (r >>= f) ≡ ok b
    → (a : A) × (r ≡ ok a) × (f a ≡ ok b)
ok-bind (ok a) f h = (a, refl, h)
ok-bind (err e) f h = absurd (ground arith)
ok-bind panic f h = absurd (ground arith)

pub check-ok : (b : Bool) (e : Error) {u : Unit {0}} → check b e ≡ ok u → b ≡ true
check-ok true e h = refl
check-ok false e h = absurd (ground arith)
