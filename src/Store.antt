-- ===== src/Store.antt =====
-- The store, pkg/store: contents of the node under tags of the replicated store, alone and in groups.
pub mod Content
pub mod Laws
pub mod Node
use ipfs_lite.Prelude.{◌≡◌, Bool, List, [], ◌∷◌, codes, Str, Int64, Result, ok, err, panic}
use ipfs_lite.Prelude.Io.{Io, pure, lift, gets, ◌>>=◌, ◌>>◌}
use ipfs_lite.Extern.Crdt.{Crdt}
use ipfs_lite.Extern.Keys.{Keys}
use ipfs_lite.Extern.Json.{Json}
use ipfs_lite.Replication.Types.{ContentMetatag, GroupMetadata, Link}
use ipfs_lite.Replication.Group.{tag_content, group_add_content}
use ipfs_lite.Replication.Manager.{find_tag, delete_tag}
use ipfs_lite.Store.Content.{Contents}
use ipfs_lite.Extern.Dag.{DagNode}

-- `store.Info`
pub record Info : Type 0 where
  pub tag : Str
  pub content_type : Str
  pub name : Str
  pub is_encrypted : Bool
  pub size : Int64

-- A call on one part of a world of two.
abbrev pub on_left : {A B X : Type 0} → Io A X → Io (A × B) X
on_left m w = let (r, a) = m w.0 in (r, (a, w.1))

abbrev pub on_right : {A B X : Type 0} → Io B X → Io (A × B) X
on_right m w = let (r, b) = m w.1 in (r, (w.0, b))

-- The metadata of content that is added now; the group is empty for content of no group.
abbrev pub meta_of : Info → Str → Int64 → Str → Str → ContentMetatag
meta_of info hash now owner group = record {
  tag = info.tag;
  size = info.size;
  content_type = info.content_type;
  name = info.name;
  hash = hash;
  timestamp = now;
  owner = owner;
  is_encrypted = info.is_encrypted;
  group = group;
  links = [];
}

-- The metadata of a directory.
abbrev pub dir_meta_of : Info → DagNode → Int64 → Str → Str → ContentMetatag
dir_meta_of info n now owner group = record (meta_of info n.cid now owner group) {
  content_type = codes "directory";
  links = n.links;
}

-- `Get` builds this of the metadata that it finds.
abbrev pub info_of : ContentMetatag → Info
info_of m = record {
  tag = m.tag;
  content_type = m.content_type;
  name = m.name;
  is_encrypted = m.is_encrypted;
  size = m.size;
}

module _ (db : Crdt) (ks : Keys) (ct : Contents) ⦃gj : Json GroupMetadata⦄
    ⦃mj : Json ContentMetatag⦄ (host : Str) (key : ks.PrivKey) where
  -- The contents of the node, and the replicated store.
  abbrev pub Both : Type 0
  Both = ct.World × db.World

  -- `Add`. The announcement to the DHT, whose error is only logged, changes neither.
  unfoldable pub add : Str → Info → Int64 → Io Both Str
  add content info now = do
    n ← on_left (ct.add_file content)
    on_right (tag_content db ks info.tag (meta_of info n.cid now host []))
    pure (ct.cid_string n.cid)

  -- `AddDir`
  unfoldable pub add_dir : Str → Info → Int64 → Io Both Str
  add_dir dir info now = do
    n ← on_left (ct.add_dir dir)
    on_right (tag_content db ks info.tag (dir_meta_of info n now host []))
    pure (ct.cid_string n.cid)

  -- `GroupAdd`
  unfoldable pub group_add : Str → Info → Str → Int64 → Io Both Str
  group_add content info group_string now = do
    group ← lift (ct.decode_id group_string)
    n ← on_left (ct.add_file content)
    on_right (group_add_content db ks host group key (meta_of info n.cid now host group_string))
    pure (ct.cid_string n.cid)

  -- `GroupAddDir`
  unfoldable pub group_add_dir : Str → Info → Str → Int64 → Io Both Str
  group_add_dir dir info group_string now = do
    group ← lift (ct.decode_id group_string)
    n ← on_left (ct.add_dir dir)
    on_right (group_add_content db ks host group key (dir_meta_of info n now host group_string))
    pure (ct.cid_string n.cid)

module _ (db : Crdt) (ct : Contents) ⦃mj : Json ContentMetatag⦄ where
  -- `Get`: the content and what is known of it. `found` is the part after the tag was found.
  unfoldable pub read_found : ContentMetatag → ct.World → Result (Str × Info)
  read_found meta cw = elim (ct.get_file meta.hash cw) [
    | ok content ↦ ok (content, info_of meta)
    | err e ↦ err e
    | panic ↦ panic
  ]

  unfoldable pub get : Str → ct.World × db.World → Result (Str × Info)
  unfolding read_found
  get tag w = elim (find_tag db tag w.1) [
    | ok meta ↦ read_found meta w.0
    | err e ↦ err e
    | panic ↦ panic
  ]

  -- `Delete`
  unfoldable pub delete : Str → Io (ct.World × db.World) (Unit {0})
  delete tag = do
    meta ← gets (λ w. find_tag db tag w.1)
    on_left (ct.delete_file meta.hash)
    on_right (delete_tag db tag)
