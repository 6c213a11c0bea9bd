-- ===== src/Store/Laws.antt =====
-- What was stored under a tag is found there, until it is deleted.
use ipfs_lite.Prelude.{◌≡◌, refl, ◌≢◌, arith, List, [], Str, Int64, Result, ok, err, panic, In}
use ipfs_lite.Prelude.Io.{Io, pure, gets, bind-ok, ◌>>=◌, ◌>>◌}
use ipfs_lite.Extern.Crdt.{Crdt}
use ipfs_lite.Extern.Keys.{Keys}
use ipfs_lite.Extern.Json.{Json, decode-marshal}
use ipfs_lite.Replication.Types.{ContentMetatag, GroupMetadata}
use ipfs_lite.Replication.Tags.{index_tag, member_tag}
use ipfs_lite.Replication.Group.{tag_content, group_add_content, group_get_all_content}
use ipfs_lite.Replication.Group.Content.{get-tag_content, added_content_listed}
use ipfs_lite.Replication.Manager.{find_tag, delete_tag}
use ipfs_lite.Store.Content.{Contents}
use ipfs_lite.Store.{
  Info, on_left, on_right, meta_of, info_of, add, group_add, read_found, get, delete,
}

-- A call on the left world and then one on the right: where both succeed, so did each.
left-right :
    {A B X Y : Type 0} (m : Io A X) (f : X → Io B (Unit {0})) (g : X → Y) (w w' : A × B) (y : Y)
    → (on_left m >>= λ x. on_right (f x) >> pure (g x)) w ≡ (ok y, w')
    → (x : X) × (m w.0 ≡ (ok x, w'.0)) × (f x w.1 ≡ (ok tt, w'.1))
left-right {A} {B} {X} {Y} m f g w w' y h = go (m w.0).0 refl
  where
    second :
        (x : X)
        → (m w.0).0 ≡ ok x
        → (t : Result (Unit {0})) → (f x w.1).0 ≡ t
        → (x : X) × (m w.0 ≡ (ok x, w'.0)) × (f x w.1 ≡ (ok tt, w'.1))
    second x e (ok u) e' = (x, ground arith, ground arith)
    second x e (err z) e' = absurd (ground arith)
    second x e panic e' = absurd (ground arith)

    go :
        (r : Result X)
        → (m w.0).0 ≡ r
        → (x : X) × (m w.0 ≡ (ok x, w'.0)) × (f x w.1 ≡ (ok tt, w'.1))
    go (ok x) e = second x e (f x w.1).0 refl
    go (err z) e = absurd (ground arith)
    go panic e = absurd (ground arith)

module _ (db : Crdt) (ks : Keys) (ct : Contents) ⦃gj : Json GroupMetadata⦄
    ⦃mj : Json ContentMetatag⦄ (host : Str) (key : ks.PrivKey) where
  find_tag-tag_content :
      (tag : Str) (meta : ContentMetatag) (w w' : db.World)
      → tag_content db ks tag meta w ≡ (ok tt, w')
      → find_tag db tag w' ≡ ok meta
  unfolding find_tag
  find_tag-tag_content tag meta w w' h =
      let (b, eb, gb, same) = get-tag_content db ks tag meta w w' h in
      ground (arith, gb, decode-marshal meta b eb)

  -- What is found under a tag stands in the store.
  find_tag-get :
      (tag : Str) (w : db.World) (meta : ContentMetatag)
      → find_tag db tag w ≡ ok meta
      → (b : Str) × (db.get (db.new_key tag) w ≡ ok b)
  unfolding find_tag
  find_tag-get tag w meta h = go (db.get (db.new_key tag) w) refl
    where
      go :
          (r : Result Str)
          → db.get (db.new_key tag) w ≡ r
          → (b : Str) × (db.get (db.new_key tag) w ≡ ok b)
      go (ok b) e = (b, e)
      go (err x) e = absurd (ground arith)
      go panic e = absurd (ground arith)

  get-found :
      (tag : Str) (w : ct.World × db.World) (got : Str × Info)
      → get db ct tag w ≡ ok got
      → (meta : ContentMetatag) × (find_tag db tag w.1 ≡ ok meta)
  unfolding get
  get-found tag w got h = go (find_tag db tag w.1) refl
    where
      go :
          (r : Result ContentMetatag)
          → find_tag db tag w.1 ≡ r
          → (meta : ContentMetatag) × (find_tag db tag w.1 ≡ ok meta)
      go (ok meta) e = (meta, e)
      go (err x) e = absurd (ground arith)
      go panic e = absurd (ground arith)

  -- When adding content under a tag succeeds, getting the tag gives the content and the information
  -- that it was added with.
  pub get-add :
      (content : Str) (info : Info) (now : Int64) (w w' : ct.World × db.World) (id : Str)
      → add db ks ct host key content info now w ≡ (ok id, w')
      → get db ct info.tag w' ≡ ok (content, info)
  unfolding add get read_found
  get-add content info now w w' id h =
      let (n, added, tagged) =
        left-right (ct.add_file content)
          (λ n. tag_content db ks info.tag (meta_of info n.cid now host []))
          (λ n. ct.cid_string n.cid) w w' id h in
      let found = find_tag-tag_content info.tag _ w.1 w'.1 tagged in
      let there = ct.get-add_file content n w.0 w'.0 added in ground (arith, found, there)

  -- When deleting a tag succeeds, the tag was found, the node has deleted the content that the tag's
  -- metadata name, and getting the tag does not succeed any more.
  pub get-delete :
      (tag : Str) (w w' : ct.World × db.World) (again : Str × Info)
      → delete db ct tag w ≡ (ok tt, w')
      → (meta : ContentMetatag) × (find_tag db tag w.1 ≡ ok meta)
        × (ct.delete_file meta.hash w.0 ≡ (ok tt, w'.0))
        × (get db ct tag w' ≢ ok again)
  unfolding delete delete_tag
  get-delete tag w w' again h =
      let (meta, w1, e1, h1) =
        bind-ok (gets (λ (v : ct.World × db.World). find_tag db tag v.1))
          (λ meta. on_left (ct.delete_file meta.hash) >> on_right (delete_tag db tag)) w h in
      let (u, w2, e2, h2) =
        bind-ok (on_left {B = db.World} (ct.delete_file meta.hash))
          (λ _. on_right (delete_tag db tag)) w1 h1 in
      (meta, ground arith, ground arith, gone (ground arith))
    where
      gone : db.delete (db.new_key tag) w.1 ≡ (ok tt, w'.1) → get db ct tag w' ≢ ok again
      gone d e =
          let (meta, found) = get-found tag w' again e in
          let (b, stored) = find_tag-get tag w'.1 meta found in
          db.get-delete (db.new_key tag) b w.1 w'.1 d stored

  decoded :
      (group_string group : Str) (info : Info) (now : Int64) (w w' : ct.World × db.World)
      (id content : Str)
      → ct.decode_id group_string ≡ ok group
      → group_add db ks ct host key content info group_string now w ≡ (ok id, w')
      → (on_left (ct.add_file content) >>= λ n.
            on_right
              (group_add_content db ks host group key (meta_of info n.cid now host group_string))
            >> pure (ct.cid_string n.cid))
          w
        ≡ (ok id, w')
  unfolding group_add
  decoded group_string group info now w w' id content eg h = rw (eg, group_add) at h

  -- When adding content to a group succeeds, every listing of the group's contents that succeeds on
  -- the store as it is then holds metadata of the content's tag that belong to the group and to this
  -- node, and the node has the content under the hash that they name. The keys of the content and of
  -- the node as a member are taken to be clean paths.
  pub group_add_listed :
      (content group_string reader : Str) (group : Str) (reader_key : ks.PrivKey) (info : Info)
      (now : Int64) (w w' : ct.World × db.World) (id : Str) (listed : List ContentMetatag)
      → ct.decode_id group_string ≡ ok group
      → db.new_key (index_tag (ks.id_string group) info.tag)
        ≡ index_tag (ks.id_string group) info.tag
      → db.new_key (member_tag (ks.id_string host) (ks.id_string group))
        ≡ member_tag (ks.id_string host) (ks.id_string group)
      → group_add db ks ct host key content info group_string now w ≡ (ok id, w')
      → group_get_all_content db ks reader group reader_key w'.1 ≡ ok listed
      → (meta : ContentMetatag) × In meta listed
        × (info_of meta ≡ info)
        × (meta.owner ≡ host)
        × (meta.group ≡ ks.id_string group)
        × (ct.get_file meta.hash w'.0 ≡ ok content)
  unfolding group_add
  group_add_listed content group_string reader group reader_key info now w w' id listed eg ci cm h
        read =
      let stored = decoded group_string group info now w w' id content eg h in
      let (n, added, put) =
        left-right (ct.add_file content)
          (λ n. group_add_content db ks host group key (meta_of info n.cid now host group_string))
          (λ n. ct.cid_string n.cid) w w' id stored in
      let meta : ContentMetatag = record (meta_of info n.cid now host group_string) {
        group = ks.id_string group;
      } in
      (
        meta,
        (added_content_listed db ks host group reader key reader_key
            (meta_of info n.cid now host group_string) w.1 w'.1 listed ci cm put read).0,
        refl,
        refl,
        refl,
        ct.get-add_file content n w.0 w'.0 added,
      )
