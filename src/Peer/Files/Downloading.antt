-- ===== src/Peer/Files/Downloading.antt =====
-- The loop of a download ends, and has read everything.
use mathlib.Core.Path.{subst}
use mathlib.Core.Bool.{true≢false}
use ipfs_lite.Prelude.{
  ◌≡◌, refl, sym, ◌∙◌, inl, inr, arith, ℕ, zero, suc, ◌+◌, ◌%◌, ◌<◌, some, Str, Int64, int64_mod,
  add64, Error, Result, ok, err, panic, ◌==◌, ==_iff, Bool-cases,
}
use ipfs_lite.Extern.Dag.{Dag, DagNode, ReadEnd, more, eof, failed}
use ipfs_lite.Peer.Files.{round, download_loop, download}

-- A read of a reader, or of what reads before it have left, fails with the error.
pub data Fails (dg : Dag) (e : Error) : dg.Reader → Type 0 where
  now : (r : dg.Reader) → (dg.read r 4096).0.1 ≡ failed e → Fails dg e r
  later : (r : dg.Reader) → Fails dg e (dg.read r 4096).1 → Fails dg e r

-- What a loop on a reader may return: all of the bytes, modulo 2^64, or an error with which a read
-- fails.
abbrev pub ReadsAll : (dg : Dag) → dg.Reader → ℕ → Result Int64 → Type 0
ReadsAll dg r total (ok nr) = nr ≡ total % int64_mod
ReadsAll dg r total (err e) = Fails dg e r
ReadsAll dg r total panic = ⊥

-- A round with its bytes counted leaves the others to the next.
rest-ReadsAll :
    (dg : Dag) (r : dg.Reader) (n nr a b : ℕ) (result : Result Int64)
    → a ≡ n + b
    → ReadsAll dg (dg.read r 4096).1 (add64 nr n + b) result
    → ReadsAll dg r (nr + a) result
rest-ReadsAll dg r n nr a b (ok t) e q = omega arith
rest-ReadsAll dg r n nr a b (err x) e q = later r q
rest-ReadsAll dg r n nr a b panic e q = q

ended : (n nr a b : ℕ) → n ≡ 0 → a ≡ n + b → b ≡ 0 → nr < int64_mod → nr ≡ (nr + a) % int64_mod
ended n nr a b en e eb h = omega arith

module _ (dg : Dag) where
  open dg use {Reader, World}

  loop_ends :
      (fuel : ℕ) (r : Reader) (nr : Int64)
      → dg.reads r < fuel
      → nr < int64_mod
      → (result : Result Int64) × (download_loop dg fuel r nr ≡ some result)
        × ReadsAll dg r (nr + dg.left r) result
  unfolding download_loop round
  loop_ends zero r nr h bound = absurd (omega arith)
  loop_ends (suc fuel) r nr h bound =
      go (dg.read r 4096).0.0 (dg.read r 4096).0.1 refl refl (loop_ends fuel (dg.read r 4096).1)
    where
      r' : Reader
      r' = (dg.read r 4096).1

      go :
          (n : ℕ) (e : ReadEnd)
          → (dg.read r 4096).0.0 ≡ n
          → (dg.read r 4096).0.1 ≡ e
          → ((nr' : Int64)
              → dg.reads r' < fuel
              → nr' < int64_mod
              → (result : Result Int64) × (download_loop dg fuel r' nr' ≡ some result)
                × ReadsAll dg r' (nr' + dg.left r') result)
          → (result : Result Int64) × (download_loop dg (suc fuel) r nr ≡ some result)
            × ReadsAll dg r (nr + dg.left r) result
      go n (failed x) en ee ih = (err x, ground arith, now r ee)
      go n more en ee ih =
          let fewer = dg.reads-more r r' 4096 n (ground arith) in
          let total = dg.left-read r r' 4096 n more (ground arith) in
          let (result, e', q) = ih (add64 nr n) (omega arith) (omega arith) in
          (result, ground arith, rest-ReadsAll dg r n nr (dg.left r) (dg.left r') result total q)
      go n eof en ee ih = elim (Bool-cases (n == 0)) [
        | inl last ↦
            let none_left = dg.left-eof r r' 4096 (ground (arith, ==_iff n 0)) in
            let total = dg.left-read r r' 4096 n eof (ground arith) in
            (
              ok nr,
              ground arith,
              ended n nr (dg.left r) (dg.left r') ((==_iff n 0).0 last) total none_left bound,
            )
        | inr some_read ↦
            let fewer =
              dg.reads-eof r r' 4096 n (ground arith)
                (λ z. true≢false (sym ((==_iff n 0).1 z) ∙ some_read)) in
            let total = dg.left-read r r' 4096 n eof (ground arith) in
            let (result, e', q) = ih (add64 nr n) (omega arith) (omega arith) in
            (result, ground arith, rest-ReadsAll dg r n nr (dg.left r) (dg.left r') result total q)
      ]

  -- A download ends: where the content's node is there and can be read, any fuel above the bound that
  -- the reader has on its reads gives a result, which is the number of all the bytes that the reader
  -- has, modulo 2^64, or an error with which one of its reads fails.
  pub download_ends :
      (fuel : ℕ) (c : Str) (w : World) (n : DagNode) (r : Reader)
      → dg.get_node c w ≡ ok n
      → dg.new_reader n w ≡ ok r
      → dg.reads r < fuel
      → (result : Result Int64) × (download dg fuel c w ≡ some result)
        × ReadsAll dg r (dg.left r) result
  unfolding download
  download_ends fuel c w n r en er h =
      let (result, e, q) = loop_ends fuel r 0 h (omega arith) in
      let total : 0 + dg.left r ≡ dg.left r = omega arith in
      (result, ground arith, subst (λ t. ReadsAll dg r t result) total q)
