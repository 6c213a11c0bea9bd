-- ===== src/Matrix/Content.antt =====
-- The content matrix, internal/matrix/matrix.go: ContentMatrix and the methods that the download
-- watcher calls, on the map from a hash to its entry. `now` is the value of time.Now().Unix().
pub mod Lifecycle
pub mod Providers
use ipfs_lite.Prelude.{
  ◌*◌, Bool, true, false, List, [], ◌∷◌, ◌++◌, Option, none, some, Str, str_eq, Dict, lookup,
  insert, Int64, sub64, Result, ok, panic, ◌==◌, if◌then◌else◌,
}
use ipfs_lite.Extern.Floats.{Float32}

pub record ContentMatrix (F : Type 0) : Type 0 where
  pub tag : Str
  pub size : Int64
  pub avg_speed : F
  pub download_started_at : Int64
  pub download_finished_at : Int64
  pub provided_by : List Str

-- The loop that looks for a provider, with its `break`.
unfoldable pub is_provider : Str → List Str → Bool
is_provider p [] = false
is_provider p (v ∷ vs) = if str_eq v p then true else is_provider p vs

-- The seconds that a download took; none count as one.
abbrev pub time_consumed : Int64 → Int64 → Int64
time_consumed now started = let t = sub64 now started in if t == 0 then 1 else t

module _ {F : Type 0} ⦃fl : Float32 F⦄ where
  abbrev pub size_in_mb : Int64 → F
  size_in_mb size = fl.div (fl.of_int64 size) (fl.of_int64 (1024 * 1024))

  -- `&ContentMatrix{ProvidedBy: []peer.ID{}}`
  abbrev pub new_entry : ContentMatrix F
  new_entry = record {
    tag = [];
    size = 0;
    avg_speed = fl.zero;
    download_started_at = 0;
    download_finished_at = 0;
    provided_by = [];
  }

  -- `NewContent`
  unfoldable pub new_content : Str → Dict (ContentMatrix F) → Dict (ContentMatrix F)
  new_content hash m = elim (lookup hash m) [ none ↦ insert hash new_entry m | some _ ↦ m ]

  -- A write through the pointer that the map holds: a panic where it holds none.
  unfoldable pub with_entry :
      Str
      → (ContentMatrix F → ContentMatrix F)
      → Dict (ContentMatrix F)
      → Result (Dict (ContentMatrix F))
  with_entry hash f m = elim (lookup hash m) [ none ↦ panic | some c ↦ ok (insert hash (f c) m) ]

  unfoldable pub start_entry : Int64 → Str → Int64 → ContentMatrix F → ContentMatrix F
  start_entry now tag size c = record c { tag = tag; download_started_at = now; size = size }

  -- `ContentDownloadStarted`
  unfoldable pub content_download_started :
      Int64 → Str → Str → Int64 → Dict (ContentMatrix F) → Result (Dict (ContentMatrix F))
  content_download_started now tag hash size = with_entry hash (start_entry now tag size)

  unfoldable pub finish_entry : Int64 → ContentMatrix F → ContentMatrix F
  finish_entry now c = record c {
    download_finished_at = now;
    avg_speed = fl.div (size_in_mb c.size) (fl.of_int64 (time_consumed now c.download_started_at));
  }

  -- `ContentDownloadFinished`
  unfoldable pub content_download_finished :
      Int64 → Str → Dict (ContentMatrix F) → Result (Dict (ContentMatrix F))
  content_download_finished now hash = with_entry hash (finish_entry now)

  unfoldable pub provide_entry : Str → ContentMatrix F → ContentMatrix F
  provide_entry p c =
      if is_provider p c.provided_by then c else record c { provided_by = c.provided_by ++ p ∷ [] }

  -- `ContentAddProvider`
  unfoldable pub content_add_provider :
      Str → Str → Dict (ContentMatrix F) → Result (Dict (ContentMatrix F))
  content_add_provider hash p = with_entry hash (provide_entry p)

  -- `GetContentStat`
  unfoldable pub get_content_stat : Str → Dict (ContentMatrix F) → Result (ContentMatrix F)
  get_content_stat hash m = elim (lookup hash m) [ none ↦ panic | some c ↦ ok c ]
