-- ===== src/Replication/Watcher.antt =====
-- The content watcher and its download tasks, internal/replication/replication.go:
-- StartContentWatcher, DownloaderTask and StartUnfinishedDownload, one received content at a time.
pub mod Counted
use ipfs_lite.Prelude.{
  Bool, true, false, List, [], ◌∷◌, Str, Dict, Int64, Error, Result, ok, err, panic, ◌>>=◌,
  if◌then◌else◌,
}
use ipfs_lite.Extern.Bloom.{Bloom}
use ipfs_lite.Extern.FileSystem.{FileSystem}
use ipfs_lite.Extern.Floats.{Float32}
use ipfs_lite.Extern.Json.{Json}
use ipfs_lite.Matrix.Content.{
  ContentMatrix, new_content, content_add_provider, content_download_started,
  content_download_finished,
}
use ipfs_lite.Repo.StateKeeper.{State}
use ipfs_lite.Replication.Types.{ContentMetatag}
use ipfs_lite.Replication.Hooks.{Local, update_keeper, add_to_state}

-- The node's own state and its content matrix.
pub record Watched (Files Filter F : Type 0) : Type 0 where
  pub local : Local Files Filter
  pub contents : Dict (ContentMatrix F)

module _ {F : Type 0} ⦃fl : Float32 F⦄ where
  -- `for _, provider := range providers { mat.ContentAddProvider(id, provider) }`
  unfoldable pub add_providers :
      Str → List Str → Dict (ContentMatrix F) → Result (Dict (ContentMatrix F))
  add_providers id [] m = ok m
  add_providers id (p ∷ ps) m = content_add_provider id p m >>= add_providers id ps

  -- The handling of a received content, up to the start of its task; `go` is what the task manager
  -- returned, whose error ends the handling.
  unfoldable pub watch :
      Int64
      → (Str → Str)
      → List Str
      → Result (Unit {0})
      → ContentMetatag
      → Dict (ContentMatrix F)
      → Result (Dict (ContentMatrix F))
  watch now cid_string providers go meta m =
      add_providers (cid_string meta.hash) providers (new_content (cid_string meta.hash) m)
      >>= λ m1. elim go [
        | ok _ ↦ content_download_started now meta.tag (cid_string meta.hash) meta.size m1
        | err _ ↦ ok m1
        | panic ↦ panic
      ]

module _ (fs : FileSystem) {Filter : Type 0} ⦃bl : Bloom Filter⦄ ⦃fj : Json Filter⦄
    ⦃sj : Json (Dict (State Filter))⦄ where
  -- The callback of a task: the group's states for content of a group, the node's filter otherwise.
  unfoldable pub count : ContentMetatag → Local fs.World Filter → Result (Local fs.World Filter)
  count meta s = elim meta.group [
    | [] ↦ add_to_state fs meta.tag s
    | c ∷ g ↦ update_keeper fs (c ∷ g) (meta.tag ∷ []) s
  ]

module _ (fs : FileSystem) {Filter F : Type 0} ⦃bl : Bloom Filter⦄ ⦃fj : Json Filter⦄
    ⦃sj : Json (Dict (State Filter))⦄ ⦃fl : Float32 F⦄ where
  -- The whole callback: the matrix first.
  unfoldable pub callback :
      Int64
      → (Str → Str)
      → ContentMetatag
      → Watched fs.World Filter F
      → Result (Watched fs.World Filter F)
  callback now cid_string meta s =
      content_download_finished now (cid_string meta.hash) s.contents >>= λ contents'.
      count fs meta s.local >>= λ local'. ok (record { local = local'; contents = contents' })

  -- `DownloaderTask.Execute`, given the result of the download.
  unfoldable pub execute :
      Int64
      → (Str → Str)
      → Result (Unit {0})
      → ContentMetatag
      → Watched fs.World Filter F
      → Result (Watched fs.World Filter F)
  execute now cid_string download meta s = elim download [
    | ok _ ↦ callback now cid_string meta s
    | err _ ↦ ok s
    | panic ↦ panic
  ]
