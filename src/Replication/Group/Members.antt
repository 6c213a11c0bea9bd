-- ===== src/Replication/Group/Members.antt =====
-- A new member, and what the member may do.
use ipfs_lite.Prelude.{◌≡◌, refl, sym, ◌∙◌, inl, arith, true, Str, Result, ok, err, panic}
use ipfs_lite.Extern.Crdt.{Crdt}
use ipfs_lite.Extern.Keys.{Keys}
use ipfs_lite.Extern.Json.{Json}
use ipfs_lite.Replication.Types.{ContentMetatag, GroupMetadata}
use ipfs_lite.Replication.Tags.{group_tag, member_tag}
use ipfs_lite.Replication.Group.Access.{is_member_iff, checks_iff}
use ipfs_lite.Replication.Group.Create.{
  get-store, kept_by_store, group_meta-stored, group-ne-member_clean,
}
use ipfs_lite.Replication.Group.{store_public_key, is_member, authorize, group_add_member}

module _ (db : Crdt) (ks : Keys) ⦃gj : Json GroupMetadata⦄ ⦃mj : Json ContentMetatag⦄ where
  open db use {World, new_key, get, put, query}
  open ks use {PrivKey, PubKey, public, raw, base64, id_string}

  add_member-store :
      (peer new_peer group : Str) (key : PrivKey) (member_key : PubKey) (w w' : World)
      → group_add_member db ks peer new_peer group key member_key w ≡ (ok tt, w')
      → (gm : GroupMetadata) × (authorize db ks peer group key w ≡ ok gm)
        × (store_public_key db ks (member_tag (id_string new_peer) (id_string group)) member_key w
            ≡ (ok tt, w'))
  unfolding group_add_member
  add_member-store peer new_peer group key member_key w w' h =
      go (authorize db ks peer group key w) refl
    where
      go :
          (r : Result GroupMetadata)
          → authorize db ks peer group key w ≡ r
          → (gm : GroupMetadata) × (authorize db ks peer group key w ≡ ok gm)
            × (store_public_key db ks
                  (member_tag (id_string new_peer) (id_string group))
                  member_key
                  w
                ≡ (ok tt, w'))
      go (ok gm) e = (gm, e, ground arith)
      go (err x) e = absurd (ground arith)
      go panic e = absurd (ground arith)

  -- When adding a member to an open group succeeds, the caller had passed the check, the new peer
  -- counts as a member with the private key whose public key was added, and the new member passes
  -- the check in turn, with the same metadata. The metadata are those that the store holds before
  -- the call, marshalled; the two keys are taken to be clean paths.
  pub added_member_acts :
      (peer new_peer group : Str) (key new_member_key : PrivKey) (w w' : World) (b : Str)
      (gm : GroupMetadata)
      → new_key (group_tag (id_string group)) ≡ group_tag (id_string group)
      → new_key (member_tag (id_string new_peer) (id_string group))
        ≡ member_tag (id_string new_peer) (id_string group)
      → gj.marshal gm ≡ ok b
      → get (new_key (group_tag (id_string group))) w ≡ ok b
      → gm.is_open ≡ true
      → group_add_member db ks peer new_peer group key (public new_member_key) w ≡ (ok tt, w')
      → (authorize db ks peer group key w ≡ ok gm)
        × (is_member db ks new_peer group new_member_key w' ≡ ok tt)
        × (authorize db ks new_peer group new_member_key w' ≡ ok gm)
  added_member_acts peer new_peer group key new_member_key w w' b gm cg cm eb found open_group h =
      let (gm', passed, stored) =
        add_member-store peer new_peer group key (public new_member_key) w w' h in
      let (k, ek, gk) =
        get-store db ks (member_tag (id_string new_peer) (id_string group)) (public new_member_key)
          w w' stored in
      let kept =
        kept_by_store db ks (group_tag (id_string group)) _ (public new_member_key) w w' b
          (group-ne-member_clean db ks _ _ _ cg cm) stored found in
      let member = (is_member_iff db ks new_peer group new_member_key w').1 (k, ek, gk) in
      let before = group_meta-stored db ks group gm b w eb found in
      let same = (checks_iff db ks peer group key w gm').0 passed in
      (
        passed ∙ (sym same.0 ∙ before),
        member,
        (checks_iff db ks new_peer group new_member_key w' gm).1
            (group_meta-stored db ks group gm b w' eb kept, inl open_group, member),
      )
