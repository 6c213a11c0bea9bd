-- ===== src/Replication/Group/Create.antt =====
-- A new group, and what its owner finds.
use ipfs_lite.Prelude.{
  ap, sym, ◌∙◌, ◌≢◌, ◌≡◌, refl, ◌≢◌, sym, ◌∙◌, ap, inr, arith, Bool, Str, Int64, Result, ok, err,
  panic,
}
use ipfs_lite.Extern.Crdt.{Crdt}
use ipfs_lite.Extern.Keys.{Keys}
use ipfs_lite.Extern.Json.{Json, decode-marshal}
use ipfs_lite.Replication.Types.{ContentMetatag, GroupMetadata}
use ipfs_lite.Replication.Tags.{group_tag, member_tag}
use ipfs_lite.Replication.Group.Access.{is_member_iff, checks_iff}
use ipfs_lite.Replication.Tags.{group-ne-member}
use ipfs_lite.Replication.Group.{
  group_meta, create_group_id, tag_group, store_public_key, make_group, group_meta, group_get_info,
}

module _ (db : Crdt) (ks : Keys) ⦃gj : Json GroupMetadata⦄ ⦃mj : Json ContentMetatag⦄ where
  open db use {World, new_key, get, put, query}
  open ks use {PrivKey, PubKey, public, raw, base64, id_string}

  pub get-store :
      (tag : Str) (key : PubKey) (w w' : World)
      → store_public_key db ks tag key w ≡ (ok tt, w')
      → (k : Str) × (raw key ≡ ok k) × (get (new_key tag) w' ≡ ok (base64 k))
  unfolding store_public_key
  get-store tag key w w' h = go (raw key) refl
    where
      go :
          (r : Result Str)
          → raw key ≡ r
          → (k : Str) × (raw key ≡ ok k) × (get (new_key tag) w' ≡ ok (base64 k))
      go (ok k) e = (k, e, db.get-put (new_key tag) (base64 k) w w' (ground arith))
      go (err x) e = absurd (ground arith)
      go panic e = absurd (ground arith)

  pub get-store_ne :
      (j tag : Str) (key : PubKey) (w : World)
      → j ≢ new_key tag
      → get j (store_public_key db ks tag key w).1 ≡ get j w
  unfolding store_public_key
  get-store_ne j tag key w ne = go (raw key) refl
    where
      go : (r : Result Str) → raw key ≡ r → get j (store_public_key db ks tag key w).1 ≡ get j w
      go (ok k) e = ground (arith, db.get-put_ne j (new_key tag) (base64 k) w ne)
      go (err x) e = ground arith
      go panic e = ground arith

  get-tag_group :
      (tag : Str) (meta : GroupMetadata) (w w' : World)
      → tag_group db ks tag meta w ≡ (ok tt, w')
      → (b : Str) × (gj.marshal meta ≡ ok b) × (get (new_key tag) w' ≡ ok b)
  unfolding tag_group
  get-tag_group tag meta w w' h = go (gj.marshal meta) refl
    where
      go :
          (r : Result Str)
          → gj.marshal meta ≡ r
          → (b : Str) × (gj.marshal meta ≡ ok b) × (get (new_key tag) w' ≡ ok b)
      go (ok b) e = (b, e, db.get-put (new_key tag) b w w' (ground arith))
      go (err x) e = absurd (ground arith)
      go panic e = absurd (ground arith)

  -- What a creation has done when it succeeds: the metadata is that asked for, under an identifier
  -- made of the name and the time, and it was stored before the owner's key was.
  made :
      (is_open : Bool) (name owner : Str) (key : PrivKey) (now : Int64) (w w' : World)
      (meta : GroupMetadata)
      → make_group db ks is_open name owner key now w ≡ (ok meta, w')
      → (w1 : World) × (tag_group db ks (group_tag (id_string meta.group_id)) meta w ≡ (ok tt, w1))
        × (store_public_key db ks
              (member_tag (id_string owner) (id_string meta.group_id))
              (public key)
              w1
            ≡ (ok tt, w'))
        × (meta.name ≡ name)
        × (meta.owner_id ≡ owner)
        × (meta.is_open ≡ is_open)
  unfolding make_group
  made is_open name owner key now w w' meta h =
      go (create_group_id db ks name now) refl (raw (public key)) refl
    where
      Made : Type 0
      Made =
          (w1 : World) × (tag_group db ks (group_tag (id_string meta.group_id)) meta w
            ≡ (ok tt, w1))
          × (store_public_key db ks (member_tag (id_string owner) (id_string meta.group_id))
                (public key) w1
              ≡ (ok tt, w'))
          × (meta.name ≡ name)
          × (meta.owner_id ≡ owner)
          × (meta.is_open ≡ is_open)

      go :
          (r : Result Str)
          → create_group_id db ks name now ≡ r
          → (q : Result Str) → raw (public key) ≡ q
          → Made
      go (ok g) e (ok k) e' = (
        (tag_group db ks (group_tag (id_string g)) (new_meta g k) w).1,
        ground arith,
        ground arith,
        ground arith,
        ground arith,
        ground arith,
      )
        where
          new_meta : Str → Str → GroupMetadata
          new_meta g k = record {
            name = name;
            owner_id = owner;
            owner_public_key = k;
            group_id = g;
            is_open = is_open;
          }
      go (ok g) e (err x) e' = absurd (ground arith)
      go (ok g) e panic e' = absurd (ground arith)
      go (err x) e q e' = absurd (ground arith)
      go panic e q e' = absurd (ground arith)

  pub group_meta-stored :
      (group : Str) (meta : GroupMetadata) (b : Str) (w : World)
      → gj.marshal meta ≡ ok b
      → get (new_key (group_tag (id_string group))) w ≡ ok b
      → group_meta db ks group w ≡ ok meta
  unfolding group_meta
  group_meta-stored group meta b w e h = ground (arith, decode-marshal meta b e)

  -- Storing a public key keeps the value of another key.
  pub kept_by_store :
      (t tag : Str) (key : PubKey) (w w' : World) (b : Str)
      → new_key t ≢ new_key tag
      → store_public_key db ks tag key w ≡ (ok tt, w')
      → get (new_key t) w ≡ ok b
      → get (new_key t) w' ≡ ok b
  kept_by_store t tag key w w' b ne h g =
      ap (λ (x : Result (Unit {0}) × World). get (new_key t) x.1) (sym h)
      ∙ get-store_ne (new_key t) tag key w ne
      ∙ g

  pub group-ne-member_clean :
      (g p g' : Str)
      → new_key (group_tag g) ≡ group_tag g
      → new_key (member_tag p g') ≡ member_tag p g'
      → new_key (group_tag g) ≢ new_key (member_tag p g')
  group-ne-member_clean g p g' cg cm e = group-ne-member g p g' (sym cg ∙ (e ∙ cm))

  -- A group that was created, open or closed, is found by its owner: the check passes with the
  -- owner's key and returns the metadata of the creation, which names the owner and the kind asked
  -- for. The keys of the group and of the owner are taken to be clean paths.
  pub get_info-make_group :
      (is_open : Bool) (name owner : Str) (key : PrivKey) (now : Int64) (w w' : World)
      (meta : GroupMetadata)
      → make_group db ks is_open name owner key now w ≡ (ok meta, w')
      → new_key (member_tag (id_string owner) (id_string meta.group_id))
        ≡ member_tag (id_string owner) (id_string meta.group_id)
      → new_key (group_tag (id_string meta.group_id)) ≡ group_tag (id_string meta.group_id)
      → (group_get_info db ks owner meta.group_id key w' ≡ ok meta)
        × (meta.name ≡ name)
        × (meta.owner_id ≡ owner)
        × (meta.is_open ≡ is_open)
  unfolding group_get_info
  get_info-make_group is_open name owner key now w w' meta h cm cg =
      let (w1, tagged, stored, en, eo, ep) = made is_open name owner key now w w' meta h in
      let (b, eb, gb) = get-tag_group (group_tag (id_string meta.group_id)) meta w w1 tagged in
      let (k, ek, gk) =
        get-store (member_tag (id_string owner) (id_string meta.group_id)) (public key) w1 w'
          stored in
      let kept =
        kept_by_store (group_tag (id_string meta.group_id)) _ (public key) w1 w' b
          (group-ne-member_clean _ _ _ cg cm) stored gb in
      (
        (checks_iff db ks owner meta.group_id key w' meta).1 (
          group_meta-stored meta.group_id meta b w' eb kept,
          inr eo,
          (is_member_iff db ks owner meta.group_id key w').1 (k, ek, gk),
        ),
        en,
        eo,
        ep,
      )
