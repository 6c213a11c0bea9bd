-- ===== src/Mobile/Api.antt =====
-- The functions of the mobile library on content, mobile/datahop.go: Add, AddDir, Get, GroupAdd,
-- GroupAddDir, GetTags and Index.
pub mod Running
pub mod RoundTrip
pub mod Groups
use ipfs_lite.Prelude.{
  [], Bool, true, false, not, Option, none, some, List, codes, Str, str_eq, Dict, Int64, Error,
  Result, ok, err, panic, length, if◌then◌else◌, ◌>>=◌,
}
use ipfs_lite.Prelude.Io.{Io}
use ipfs_lite.Extern.Bloom.{Bloom}
use ipfs_lite.Extern.Cipher.{Cipher}
use ipfs_lite.Extern.Crdt.{Crdt}
use ipfs_lite.Extern.Keys.{Keys}
use ipfs_lite.Extern.Json.{Json}
use ipfs_lite.Mobile.Api.Running.{Hop, advertise, crdt_status}
use ipfs_lite.Repo.StateKeeper.{get_state}
use ipfs_lite.Replication.Types.{ContentMetatag, GroupMetadata}
use ipfs_lite.Replication.Hooks.{Local}
use ipfs_lite.Replication.Manager.{get_all_tags, index}
use ipfs_lite.Security.{encrypt_content, decrypt_content}
use ipfs_lite.Store as Store
use ipfs_lite.Store.{Info}
use ipfs_lite.Store.Content.{Contents}

-- The bytes that are stored: encrypted where there is a passphrase.
unfoldable pub encoded : Cipher → Str → Str → Result Str
encoded c content passphrase =
    if str_eq passphrase [] then ok content else encrypt_content c content passphrase

-- What `Get` returns of the bytes and the information that it has found.
unfoldable pub decoded : Cipher → Str → Str × Info → Result Str
decoded c passphrase (stored, info) =
    if info.is_encrypted
    then if str_eq passphrase []
      then err Error.blank_passphrase
      else decrypt_content c stored passphrase
    else ok stored

-- The information of content, by the type that filetype.Match finds.
abbrev pub content_info : (Str → Str) → Str → Str → Str → Info
content_info mime tag content passphrase = record {
  tag = tag;
  content_type = mime content;
  name = tag;
  is_encrypted = not (str_eq passphrase []);
  size = length content;
}

abbrev pub dir_info : Str → Int64 → Info
dir_info tag size = record {
  tag = tag;
  content_type = codes "directory";
  name = tag;
  is_encrypted = false;
  size = size;
}

-- The filter of a group, as `GetState` finds it.
unfoldable pub group_filter :
    {Files Filter : Type 0} ⦃bl : Bloom Filter⦄ → Str → Hop Files Filter → Result Filter
group_filter group h = elim (get_state group h.local.keeper) [
  | ok st ↦ ok st.filter
  | err e ↦ err e
  | panic ↦ panic
]

module _ (db : Crdt) (ks : Keys) (ct : Contents) (c : Cipher) {Files Filter : Type 0}
    ⦃bl : Bloom Filter⦄ ⦃gj : Json GroupMetadata⦄ ⦃mj : Json ContentMetatag⦄ (host : Str)
    (key : ks.PrivKey) (mime : Str → Str) (text : Filter → Result Str)
    (run_hooks : Local Files Filter → Local Files Filter) where
  abbrev pub World : Type 0
  World = Option (Hop Files Filter) × (ct.World × db.World)

  -- An addition ends: after a success the store's hooks have run, and the filter is advertised.
  unfoldable pub added :
      (Hop Files Filter → Result Filter)
      → Hop Files Filter
      → Result Str × (ct.World × db.World)
      → Result (Unit {0}) × World
  added filter h (ok id, b) =
      let h' : Hop Files Filter = record h { local = run_hooks h.local } in
      elim (filter h') [
        | ok f ↦ let (h2, r) = advertise text f h' in (r, (some h2, b))
        | err e ↦ (err e, (some h', b))
        | panic ↦ (panic, (some h', b))
      ]
  added filter h (err e, b) = (err e, (some h, b))
  added filter h (panic, b) = (panic, (some h, b))

  -- A call of comm.Node, which panics before the node was started.
  unfoldable pub on_node :
      {A : Type 0} → Hop Files Filter → Io (ct.World × db.World) A → Io (ct.World × db.World) A
  on_node h m b = if h.node_started then m b else (panic, b)

  -- `Add`
  unfoldable pub api_add : Str → Str → Str → Int64 → Io World (Unit {0})
  unfolding encoded added on_node
  api_add tag content passphrase now (none, b) = (err Error.node_not_running, (none, b))
  api_add tag content passphrase now (some h, b) = elim (encoded c content passphrase) [
    | ok bytes ↦
        added (λ h'. ok h'.local.state) h
          (on_node h
            (Store.add db ks ct host key bytes (content_info mime tag content passphrase) now) b)
    | err e ↦ (err e, (some h, b))
    | panic ↦ (panic, (some h, b))
  ]

  -- `GroupAdd`: it advertises the filter of the group.
  unfoldable pub api_group_add : Str → Str → Str → Str → Int64 → Io World (Unit {0})
  unfolding encoded added on_node
  api_group_add tag content passphrase group now (none, b) = (err Error.node_not_running, (none, b))
  api_group_add tag content passphrase group now (some h, b) = elim (encoded c content passphrase) [
    | ok bytes ↦ added (group_filter group) h (
        on_node h
          (Store.group_add db ks ct host key bytes (content_info mime tag content passphrase) group
            now)
          b)
    | err e ↦ (err e, (some h, b))
    | panic ↦ (panic, (some h, b))
  ]

  -- `Get`
  unfoldable pub api_get : Str → Str → World → Result Str
  unfolding decoded
  api_get tag passphrase (none, b) = err Error.node_not_running
  api_get tag passphrase (some h, b) =
      if h.node_started
      then elim (Store.get db ct tag b) [
        | ok found ↦ decoded c passphrase found
        | err e ↦ err e
        | panic ↦ panic
      ]
      else panic

  -- `AddDir`; the size is what `os.Lstat` found.
  unfoldable pub api_add_dir : Str → Str → Result Int64 → Int64 → Io World (Unit {0})
  unfolding added on_node
  api_add_dir tag path size now (none, b) = (err Error.node_not_running, (none, b))
  api_add_dir tag path size now (some h, b) = elim size [
    | ok n ↦
        added (λ h'. ok h'.local.state) h
          (on_node h (Store.add_dir db ks ct host key path (dir_info tag n) now) b)
    | err e ↦ (err e, (some h, b))
    | panic ↦ (panic, (some h, b))
  ]

  -- `GroupAddDir`
  unfoldable pub api_group_add_dir : Str → Str → Str → Result Int64 → Int64 → Io World (Unit {0})
  unfolding added on_node
  api_group_add_dir tag path group size now (none, b) = (err Error.node_not_running, (none, b))
  api_group_add_dir tag path group size now (some h, b) = elim size [
    | ok n ↦
        added (group_filter group) h
          (on_node h (Store.group_add_dir db ks ct host key path (dir_info tag n) group now) b)
    | err e ↦ (err e, (some h, b))
    | panic ↦ (panic, (some h, b))
  ]

  -- The guard of the functions that only read the replicated store.
  unfoldable pub reading : {A : Type 0} → (db.World → Result A) → World → Result A
  reading f (none, b) = err Error.node_not_running
  reading f (some h, b) = if h.node_started then f b.1 else panic

  -- `GetTags` and `Index`, given the serialisations of what they return.
  unfoldable pub api_get_tags : (List Str → Result Str) → World → Result Str
  unfolding reading
  api_get_tags marshal = reading (λ w. get_all_tags db w >>= marshal)

  unfoldable pub api_index : (Dict ContentMetatag → Result Str) → World → Result Str
  unfolding reading
  api_index marshal = reading (λ w. index db w >>= marshal)
