-- ===== src/Replication/Watcher/Counted.antt =====
-- A watched content is recorded, and counted when its download has succeeded.
use mathlib.Core.Path.{subst}
use ipfs_lite.Prelude.{
  ◌≡◌, refl, ◌∙◌, ap, inl, inr, arith, true, List, [], ◌∷◌, none, some, Str, str_eq, str_eq_iff,
  Dict, lookup, insert, lookup-insert_self, Int64, Error, Result, ok, err, panic, In, Bool-cases,
}
use ipfs_lite.Extern.Bloom.{Bloom}
use ipfs_lite.Extern.Crdt.{Crdt}
use ipfs_lite.Extern.Keys.{Keys}
use ipfs_lite.Extern.FileSystem.{FileSystem}
use ipfs_lite.Extern.Floats.{Float32}
use ipfs_lite.Extern.Json.{Json}
use ipfs_lite.Matrix.Content.{
  ContentMatrix, new_content, new_entry, with_entry, start_entry, finish_entry, provide_entry,
  content_add_provider, content_download_started, content_download_finished,
}
use ipfs_lite.Repo.StateKeeper.{State, update_state}
use ipfs_lite.Repo.StateKeeper.Update.{Knows, apply, apply-adds}
use ipfs_lite.Replication.Types.{ContentMetatag, GroupMetadata}
use ipfs_lite.Replication.Hooks.{Local, update_keeper, add_to_state}
use ipfs_lite.Replication.Hooks.Known.{update_keeper_lem, add_to_state_lem}
use ipfs_lite.Replication.Manager.{find_tag, unfinished}
use ipfs_lite.Replication.Manager.Listed.{unfinished_sent}
use ipfs_lite.Replication.Watcher.{Watched, add_providers, watch, count, callback, execute}

lookup-In : {V : Type 0} (k : Str) (v : V) (m : Dict V) → lookup k m ≡ some v → In (k, v) m
unfolding lookup
lookup-In k v [] h = absurd (ground arith)
lookup-In k v ((j, u) ∷ m) h = elim (Bool-cases (str_eq j k)) [
  | inl same ↦ inl (ground (arith, str_eq_iff j k))
  | inr other ↦ inr (lookup-In k v m (ground arith))
]

module _ {F : Type 0} ⦃fl : Float32 F⦄ where
  -- An entry of a hash, with the finishing time that it holds.
  abbrev pub Finished : Str → Int64 → Dict (ContentMatrix F) → Type 0
  Finished hash t m =
      (c : ContentMatrix F) × (lookup hash m ≡ some c) × (c.download_finished_at ≡ t)

  add_providers-Finished :
      (hash : Str) (t : Int64) (ps : List Str) (m : Dict (ContentMatrix F))
      → Finished hash t m
      → (m' : Dict (ContentMatrix F)) × (add_providers hash ps m ≡ ok m') × Finished hash t m'
  unfolding add_providers content_add_provider with_entry provide_entry
  add_providers-Finished hash t [] m h = (m, refl, h)
  add_providers-Finished hash t (p ∷ ps) m (c, e, z) =
      let c' = provide_entry p c in
      let (m', e', h') =
        add_providers-Finished hash t ps (insert hash c' m)
          (c', lookup-insert_self hash c' m, ground arith) in
      (m', ground arith, h')

  -- The watcher records a content that it has not seen, with no finishing time.
  watch-Finished :
      (now : Int64) (cid_string : Str → Str) (providers : List Str) (meta : ContentMetatag)
      (m : Dict (ContentMatrix F))
      → lookup (cid_string meta.hash) m ≡ none
      → (m' : Dict (ContentMatrix F)) × (c : ContentMatrix F) × (watch now cid_string providers
            (ok tt)
            meta
            m
          ≡ ok m')
        × (lookup (cid_string meta.hash) m' ≡ some c)
        × (c.download_finished_at ≡ 0)
        × (c.tag ≡ meta.tag)
  unfolding watch new_content content_download_started with_entry start_entry
  watch-Finished now cid_string providers meta m absent =
      let id = cid_string meta.hash in
      let (m1, e1, (c, e, z)) =
        add_providers-Finished id 0 providers (insert id new_entry m)
          (new_entry, lookup-insert_self id new_entry m, refl) in
      let c' = start_entry now meta.tag meta.size c in
      (insert id c' m1, c', ground arith, lookup-insert_self id c' m1, ground arith, refl)

  -- A download that fails is not counted, and is tried again: the content was new to the node and
  -- its task was started; then the node's own state is unchanged, and when StartUnfinishedDownload
  -- returns it has sent the content again, if its tag is still found.
  pub failed_download_resent :
      (fs : FileSystem) (db : Crdt) (ks : Keys) ⦃gj : Json GroupMetadata⦄ ⦃mj : Json ContentMetatag⦄
      {Filter : Type 0} ⦃bl : Bloom Filter⦄ ⦃fj : Json Filter⦄ ⦃sj : Json (Dict (State Filter))⦄
      (now later : Int64) (cid_string : Str → Str) (providers : List Str) (meta : ContentMetatag)
      (e : Error) (m m' : Dict (ContentMatrix F)) (s : Local fs.World Filter)
      (s' : Watched fs.World Filter F) (w : db.World) (sent : List ContentMetatag)
      → lookup (cid_string meta.hash) m ≡ none
      → watch now cid_string providers (ok tt) meta m ≡ ok m'
      → execute fs later cid_string (err e) meta (record { local = s; contents = m' }) ≡ ok s'
      → find_tag db meta.tag w ≡ ok meta
      → unfinished db s'.contents w ≡ ok sent
      → (s'.local ≡ s) × In meta sent
  unfolding execute
  failed_download_resent fs db ks now later cid_string providers meta e m m' s s' w sent absent
        started failed found h =
      let (m1, c, em, ec, z, et) = watch-Finished now cid_string providers meta m absent in
      let same : m1 ≡ s'.contents = ground arith in
      (
        ground arith,
        unfinished_sent db ks (cid_string meta.hash) c s'.contents meta w sent
            (subst (In (cid_string meta.hash, c)) same (lookup-In (cid_string meta.hash) c m1 ec)) z
            (ap (λ t. find_tag db t w) et ∙ found) h,
      )

module _ (fs : FileSystem) {Filter : Type 0} ⦃bl : Bloom Filter⦄ ⦃fj : Json Filter⦄
    ⦃sj : Json (Dict (State Filter))⦄ where
  -- The node counts the content as there: in its own filter, or in that of the content's group.
  abbrev pub Counts : Str → Str → Local fs.World Filter → Type 0
  Counts [] tag s = bl.test_string s.state tag ≡ true
  Counts (c ∷ g) tag s = Knows (c ∷ g) tag s.keeper

  count-Counts :
      (group tag : Str) (meta : ContentMetatag) (s s' : Local fs.World Filter)
      → meta.group ≡ group
      → count fs meta s ≡ ok s'
      → Counts group meta.tag s'
  unfolding count update_state apply
  count-Counts [] tag meta s s' e h =
      let added : add_to_state fs meta.tag s ≡ ok s' = ground arith in
      rw (add_to_state_lem fs meta.tag s s' added).0 (bl.test-add s.state meta.tag)
  count-Counts (c ∷ g) tag meta s s' e h =
      let updated : update_keeper fs (c ∷ g) (meta.tag ∷ []) s ≡ ok s' = ground arith in
      rw (update_keeper_lem fs (c ∷ g) (meta.tag ∷ []) s s' updated).0
        (apply-adds (record { name = c ∷ g; membership = true; deltas = meta.tag ∷ [] }) s.keeper).0

  -- A download that succeeds is counted: the content was new to the node and its task was started;
  -- when the task returns, the content's entry has the finishing time, and the filter of the
  -- content's group, or the node's own for content of no group, passes its tag.
  pub download_counted :
      {F : Type 0} ⦃fl : Float32 F⦄ (now later : Int64) (cid_string : Str → Str)
      (providers : List Str) (meta : ContentMetatag) (m m' : Dict (ContentMatrix F))
      (s : Local fs.World Filter) (s' : Watched fs.World Filter F)
      → lookup (cid_string meta.hash) m ≡ none
      → watch now cid_string providers (ok tt) meta m ≡ ok m'
      → execute fs later cid_string (ok tt) meta (record { local = s; contents = m' }) ≡ ok s'
      → Finished (cid_string meta.hash) later s'.contents × Counts meta.group meta.tag s'.local
  unfolding execute callback content_download_finished with_entry finish_entry
  download_counted now later cid_string providers meta m m' s s' absent started h =
      let (m1, c, em, ec, z, et) = watch-Finished now cid_string providers meta m absent in
      let same : lookup (cid_string meta.hash) m' ≡ some c = ground arith in
      go c same (count fs meta s) refl
    where
      go :
          (c : ContentMatrix _)
          → lookup (cid_string meta.hash) m' ≡ some c
          → (r : Result (Local fs.World Filter)) → count fs meta s ≡ r
          → Finished (cid_string meta.hash) later s'.contents × Counts meta.group meta.tag s'.local
      go c e (ok s1) e' =
          let c' = finish_entry later c in
          let cs : s'.contents ≡ insert (cid_string meta.hash) c' m' = ground arith in
          let ls : s1 ≡ s'.local = ground arith in
          (
            (c', ap (lookup (cid_string meta.hash)) cs ∙ lookup-insert_self _ c' m', refl),
            subst (Counts meta.group meta.tag) ls
                (count-Counts meta.group meta.tag meta s s1 refl e'),
          )
      go c e (err x) e' = absurd (ground arith)
      go c e panic e' = absurd (ground arith)
