-- ===== src/Matrix/Keeper.antt =====
-- The keeper itself, internal/matrix/matrix.go: MatrixKeeper, its ticker, and its persistence in the
-- datastore under two keys.
pub mod Reload
use ipfs_lite.Prelude.{
  ◌≡◌, ◌≢◌, none, some, [], codes, Str, str_eq, str_eq_iff, Dict, Int64, add64, Error, Result, ok,
  err, panic, arith,
}
use ipfs_lite.Prelude.Io.{Io, lift, ◌>>=◌, ◌>>◌}
use ipfs_lite.Extern.Datastore.{Datastore}
use ipfs_lite.Extern.Json.{Json}
use ipfs_lite.Matrix.Node.{NodeMatrix}
use ipfs_lite.Matrix.Content.{ContentMatrix}

-- The state that the mutex guards; the datastore is a value of `Datastore.World` beside it.
pub record MatrixKeeper (F : Type 0) : Type 0 where
  pub node_matrix : NodeMatrix
  pub content_matrix : Dict (ContentMatrix F)

abbrev pub node_matrix_key : Str
node_matrix_key = codes "/node-matrix"

abbrev pub content_matrix_key : Str
content_matrix_key = codes "/content-matrix"

abbrev pub empty_matrix : NodeMatrix
empty_matrix = record { total_uptime = 0; nodes_discovered = [] }

module _ (ds : Datastore) {F : Type 0} ⦃nj : Json NodeMatrix⦄
    ⦃cj : Json (Dict (ContentMatrix F))⦄ where
  open ds use {World, get, put}

  -- `NewMatrixKeeper`. Its `json.Unmarshal` calls fill the two matrices of the keeper that it
  -- returns, also when they fail.
  unfoldable pub new_matrix_keeper : World → MatrixKeeper F
  new_matrix_keeper w = elim (get node_matrix_key w) [
    | ok n ↦ elim (get content_matrix_key w) [
      | ok c ↦
          let (nodes, failed) = nj.unmarshal n in
          elim failed [
            | none ↦ record { node_matrix = nodes; content_matrix = (cj.unmarshal c).0 }
            | some _ ↦ record { node_matrix = nodes; content_matrix = [] }
          ]
      | _ ↦ record { node_matrix = empty_matrix; content_matrix = [] }
    ]
    | _ ↦ record { node_matrix = empty_matrix; content_matrix = [] }
  ]

  -- `flush`: both matrices are marshalled before the first is stored.
  unfoldable pub flush : MatrixKeeper F → Io World (Unit {0})
  flush k = do
    nm ← lift (nj.marshal k.node_matrix)
    cm ← lift (cj.marshal k.content_matrix)
    put node_matrix_key nm
    put content_matrix_key cm

  -- One round of `StartTicker`, every thirty seconds; the error of the flush is dropped.
  unfoldable pub tick : MatrixKeeper F → World → MatrixKeeper F × World
  tick k w =
      let k' = record k {
        node_matrix = record k.node_matrix { total_uptime = add64 k.node_matrix.total_uptime 30 };
      } in
      (k', (flush k' w).1)
