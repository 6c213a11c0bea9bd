-- ===== src/Replication/Manager.antt =====
-- The tag index of the replication manager, internal/replication/replication.go, over the replicated
-- store, and the part of the node's state that the store's hooks change.
pub mod Listed
pub mod Closing
use ipfs_lite.Prelude.{
  ◌==◌, Bool, true, false, List, [], ◌∷◌, ◌++◌, Str, str_eq, Dict, insert, Error, Result, ok, err,
  panic, if◌then◌else◌, ◌==◌,
}
use ipfs_lite.Prelude.Io.{Io}
use ipfs_lite.Extern.Crdt.{Crdt}
use ipfs_lite.Extern.Json.{Json, decode}
use ipfs_lite.Matrix.Content.{ContentMatrix}
use ipfs_lite.Replication.Types.{ContentMetatag}

-- One round of the loop of `StartUnfinishedDownload`, before the later rounds.
unfoldable pub send :
    Bool → Result ContentMetatag → Result (List ContentMetatag) → Result (List ContentMetatag)
send false found rest = rest
send true (ok meta) (ok rest) = ok (meta ∷ rest)
send true (ok meta) (err e) = err e
send true (ok meta) panic = panic
send true (err e) rest = rest
send true panic rest = panic

module _ (db : Crdt) ⦃mj : Json ContentMetatag⦄ where
  open db use {World, new_key, get, delete, query}

  -- `FindTag`
  unfoldable pub find_tag : Str → World → Result ContentMetatag
  find_tag tag w = elim (get (new_key tag) w) [ ok b ↦ decode b | err e ↦ err e | panic ↦ panic ]

  -- `Delete`
  unfoldable pub delete_tag : Str → Io World (Unit {0})
  delete_tag tag = delete (new_key tag)

  -- One round of the loops of `Index` and `GetAllCids`, with the values that decode. A later entry
  -- of the same key replaces the earlier one.
  unfoldable pub index_entries : List (Str × Str) → Dict ContentMetatag → Dict ContentMetatag
  index_entries [] m = m
  index_entries ((k, v) ∷ es) m =
      index_entries es (elim (decode v) [ ok meta ↦ insert k meta m | err _ ↦ m | panic ↦ m ])

  -- `Index`
  unfoldable pub index : World → Result (Dict ContentMetatag)
  index w = elim (query [] w) [ ok es ↦ ok (index_entries es []) | err e ↦ err e | panic ↦ panic ]

  unfoldable pub keys_of : List (Str × Str) → List Str
  keys_of [] = []
  keys_of ((k, v) ∷ es) = k ∷ keys_of es

  -- `GetAllTags`
  unfoldable pub get_all_tags : World → Result (List Str)
  get_all_tags w = elim (query [] w) [ ok es ↦ ok (keys_of es) | err e ↦ err e | panic ↦ panic ]

  unfoldable pub hashes_of : List (Str × Str) → List Str
  hashes_of [] = []
  hashes_of ((k, v) ∷ es) =
      let rest = hashes_of es in
      elim (decode {A = ContentMetatag} v) [
        | ok meta ↦ meta.hash ∷ rest
        | err _ ↦ rest
        | panic ↦ rest
      ]

  -- `GetAllCids`
  unfoldable pub get_all_cids : World → Result (List Str)
  get_all_cids w = elim (query [] w) [ ok es ↦ ok (hashes_of es) | err e ↦ err e | panic ↦ panic ]

  -- `StartUnfinishedDownload`: what is sent to the download channel, an entry at a time. A tag that
  -- is not found is passed over.
  unfoldable pub unfinished :
      {F : Type 0} → Dict (ContentMatrix F) → World → Result (List ContentMetatag)
  unfolding send
  unfinished [] w = ok []
  unfinished ((hash, c) ∷ m) w =
      send (c.download_finished_at == 0) (find_tag c.tag w) (unfinished m w)
