-- ===== src/Matrix/Keeper/Reload.antt =====
-- What a restart finds of the matrices that were flushed.
use ipfs_lite.Prelude.{
  refl, Result, err, panic, ◌≡◌, ◌≢◌, arith, Str, str_eq, str_eq_iff, Dict, Result, ok, err, panic,
  refl,
}
use ipfs_lite.Extern.Datastore.{Datastore}
use ipfs_lite.Extern.Json.{Json}
use ipfs_lite.Matrix.Node.{NodeMatrix}
use ipfs_lite.Matrix.Content.{ContentMatrix}
use ipfs_lite.Matrix.Keeper.{
  MatrixKeeper, node_matrix_key, content_matrix_key, new_matrix_keeper, flush,
}

keys_differ : node_matrix_key ≢ content_matrix_key
unfolding str_eq
keys_differ e = cc ((str_eq_iff node_matrix_key content_matrix_key).1 e)

module _ (ds : Datastore) {F : Type 0} ⦃nj : Json NodeMatrix⦄
    ⦃cj : Json (Dict (ContentMatrix F))⦄ where
  open ds use {World, get, put}

  -- A flush that succeeds has stored the marshalled forms of both matrices.
  flush-stores :
      (k : MatrixKeeper F) (w w' : World)
      → flush ds k w ≡ (ok tt, w')
      → (n c : Str) × (nj.marshal k.node_matrix ≡ ok n)
        × (cj.marshal k.content_matrix ≡ ok c)
        × (get node_matrix_key w' ≡ ok n)
        × (get content_matrix_key w' ≡ ok c)
  unfolding flush
  flush-stores k w w' h = go (nj.marshal k.node_matrix) refl (cj.marshal k.content_matrix) refl
    where
      go :
          (rn : Result Str)
          → nj.marshal k.node_matrix ≡ rn
          → (rc : Result Str) → cj.marshal k.content_matrix ≡ rc
          → (n c : Str) × (nj.marshal k.node_matrix ≡ ok n)
            × (cj.marshal k.content_matrix ≡ ok c)
            × (get node_matrix_key w' ≡ ok n)
            × (get content_matrix_key w' ≡ ok c)
      go (ok n) en (ok c) ec = (
        n,
        c,
        en,
        ec,
        ground (
          arith,
          ds.get-put node_matrix_key n w (put node_matrix_key n w).1,
          ds.get-put_ne node_matrix_key content_matrix_key c (put node_matrix_key n w).1
              keys_differ,
        ),
        ground (arith, ds.get-put content_matrix_key c (put node_matrix_key n w).1 w'),
      )
      go (ok n) en (err e) ec = absurd (ground arith)
      go (ok n) en panic ec = absurd (ground arith)
      go (err e) en rc ec = absurd (ground arith)
      go panic en rc ec = absurd (ground arith)

  -- A keeper that has been flushed is the one that a restart on the same datastore makes.
  pub reload-flush :
      (k : MatrixKeeper F) (w w' : World) → flush ds k w ≡ (ok tt, w') → new_matrix_keeper ds w' ≡ k
  unfolding new_matrix_keeper
  reload-flush k w w' h =
      let (n, c, en, ec, gn, gc) = flush-stores k w w' h in
      ground
        (arith, nj.unmarshal-marshal k.node_matrix n en, cj.unmarshal-marshal k.content_matrix c ec)
