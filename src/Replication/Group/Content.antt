-- ===== src/Replication/Group/Content.antt =====
-- Content that a member adds to a group, and what the group lists.
use mathlib.Core.Path.{subst}
use ipfs_lite.Replication.Tags.{index_tag-below}
use ipfs_lite.Extern.Json.{decode-marshal}
use ipfs_lite.Prelude.{
  ◌≡◌, refl, ◌≢◌, sym, ◌∙◌, ap, inl, inr, arith, List, [], ◌∷◌, Str, Result, ok, err, panic, In,
}
use ipfs_lite.Extern.Crdt.{Crdt}
use ipfs_lite.Extern.Keys.{Keys}
use ipfs_lite.Extern.Json.{Json, decode}
use ipfs_lite.Replication.Types.{ContentMetatag, GroupMetadata}
use ipfs_lite.Replication.Tags.{
  member-ne-index, group_index_prefix, join_slash, member_tag, index_tag,
}
use ipfs_lite.Replication.Group.Access.{is_member_iff, checks_iff}
use ipfs_lite.Replication.Group.{
  tag_content, is_member, authorize, group_add_content, decode_all, group_get_all_content,
}

module _ (db : Crdt) (ks : Keys) ⦃gj : Json GroupMetadata⦄ ⦃mj : Json ContentMetatag⦄ where
  open db use {World, new_key, get, put, query}
  open ks use {PrivKey, PubKey, public, raw, base64, id_string}

  In-decode_all :
      (k v : Str) (m : ContentMetatag) (es : List (Str × Str))
      → decode v ≡ ok m
      → In (k, v) es
      → In m (decode_all db ks es)
  unfolding decode_all
  In-decode_all k v m [] e h = elim h [ ]
  In-decode_all k v m ((k', v') ∷ es) e (inl same) = here (decode v') refl
    where
      here :
          (r : Result ContentMetatag)
          → decode v' ≡ r
          → In m (elim r [
            | ok x ↦ x ∷ decode_all db ks es
            | err _ ↦ decode_all db ks es
            | panic ↦ decode_all db ks es
          ])
      here (ok x) e' = inl (ground arith)
      here (err x) e' = absurd (ground arith)
      here panic e' = absurd (ground arith)
  In-decode_all k v m ((k', v') ∷ es) e (inr later) =
      there (decode v') (In-decode_all k v m es e later)
    where
      there :
          (r : Result ContentMetatag)
          → In m (decode_all db ks es)
          → In m (elim r [
            | ok x ↦ x ∷ decode_all db ks es
            | err _ ↦ decode_all db ks es
            | panic ↦ decode_all db ks es
          ])
      there (ok x) i = inr i
      there (err x) i = i
      there panic i = i

  pub get-tag_content :
      (tag : Str) (meta : ContentMetatag) (w w' : World)
      → tag_content db ks tag meta w ≡ (ok tt, w')
      → (b : Str) × (mj.marshal meta ≡ ok b)
        × (get (new_key tag) w' ≡ ok b)
        × (w' ≡ (put (new_key tag) b w).1)
  unfolding tag_content
  get-tag_content tag meta w w' h = go (mj.marshal meta) refl
    where
      go :
          (r : Result Str)
          → mj.marshal meta ≡ r
          → (b : Str) × (mj.marshal meta ≡ ok b)
            × (get (new_key tag) w' ≡ ok b)
            × (w' ≡ (put (new_key tag) b w).1)
      go (ok b) e = (b, e, db.get-put (new_key tag) b w w' (ground arith), ground arith)
      go (err x) e = absurd (ground arith)
      go panic e = absurd (ground arith)

  -- Storing content leaves the entries of the groups and of their members.
  get-tag_content_ne :
      (j tag : Str) (meta : ContentMetatag) (w w' : World)
      → j ≢ new_key tag
      → tag_content db ks tag meta w ≡ (ok tt, w')
      → get j w' ≡ get j w
  get-tag_content_ne j tag meta w w' ne h =
      let (b, eb, gb, same) = get-tag_content tag meta w w' h in
      ap (get j) same ∙ db.get-put_ne j (new_key tag) b w ne

  add_content-tag :
      (peer group : Str) (key : PrivKey) (meta : ContentMetatag) (w w' : World)
      → group_add_content db ks peer group key meta w ≡ (ok tt, w')
      → (gm : GroupMetadata) × (authorize db ks peer group key w ≡ ok gm)
        × (tag_content db ks
              (index_tag (id_string group) meta.tag)
              (record meta { group = id_string group })
              w
            ≡ (ok tt, w'))
  unfolding group_add_content
  add_content-tag peer group key meta w w' h = go (authorize db ks peer group key w) refl
    where
      go :
          (r : Result GroupMetadata)
          → authorize db ks peer group key w ≡ r
          → (gm : GroupMetadata) × (authorize db ks peer group key w ≡ ok gm)
            × (tag_content db ks
                  (index_tag (id_string group) meta.tag)
                  (record meta { group = id_string group })
                  w
                ≡ (ok tt, w'))
      go (ok gm) e = (gm, e, ground arith)
      go (err x) e = absurd (ground arith)
      go panic e = absurd (ground arith)

  listed-query :
      (reader group : Str) (key : PrivKey) (w : World) (listed : List ContentMetatag)
      → group_get_all_content db ks reader group key w ≡ ok listed
      → (es : List (Str × Str)) × (query (join_slash group_index_prefix (id_string group)) w
          ≡ ok es)
        × (listed ≡ decode_all db ks es)
  unfolding group_get_all_content
  listed-query reader group key w listed h =
      go (is_member db ks reader group key w) refl
        (query (join_slash group_index_prefix (id_string group)) w) refl
    where
      go :
          (r : Result (Unit {0}))
          → is_member db ks reader group key w ≡ r
          → (q : Result (List (Str × Str)))
          → query (join_slash group_index_prefix (id_string group)) w ≡ q
          → (es : List (Str × Str)) × (query (join_slash group_index_prefix (id_string group)) w
              ≡ ok es)
            × (listed ≡ decode_all db ks es)
      go (ok u) e (ok es) e' = (es, e', ground arith)
      go (ok u) e (err x) e' = absurd (ground arith)
      go (ok u) e panic e' = absurd (ground arith)
      go (err x) e q e' = absurd (ground arith)
      go panic e q e' = absurd (ground arith)

  -- When adding content to a group succeeds, every listing of the group's contents that succeeds
  -- on the store as it is then, by any member, holds the content, marked with the group, and the
  -- caller is still a member. The keys of the content and of the caller are taken to be clean
  -- paths.
  pub added_content_listed :
      (peer group reader : Str) (key reader_key : PrivKey) (meta : ContentMetatag) (w w' : World)
      (listed : List ContentMetatag)
      → new_key (index_tag (id_string group) meta.tag) ≡ index_tag (id_string group) meta.tag
      → new_key (member_tag (id_string peer) (id_string group))
        ≡ member_tag (id_string peer) (id_string group)
      → group_add_content db ks peer group key meta w ≡ (ok tt, w')
      → group_get_all_content db ks reader group reader_key w' ≡ ok listed
      → In (record meta { group = id_string group }) listed
        × (is_member db ks peer group key w' ≡ ok tt)
  added_content_listed peer group reader key reader_key meta w w' listed ci cm h read =
      let (gm, passed, tagged) = add_content-tag peer group key meta w w' h in
      let (b, eb, gb, same) =
        get-tag_content _ (record meta { group = id_string group }) w w' tagged in
      let (es, found, shown) = listed-query reader group reader_key w' listed read in
      let (k, ek, gk) =
        (is_member_iff db ks peer group key w).0
          ((checks_iff db ks peer group key w gm).0 passed).2 in
      (
        subst (In (record meta { group = id_string group })) (sym shown) (
            In-decode_all (new_key (index_tag (id_string group) meta.tag)) b _ es
              (decode-marshal (record meta { group = id_string group }) b eb)
              (db.query-get _ _ b w' es found gb
                (rw ci (index_tag-below (id_string group) meta.tag)))),
        (is_member_iff db ks peer group key w').1 (
          k,
          ek,
          get-tag_content_ne _ _ _ w w' (λ e. member-ne-index _ _ _ _ (sym cm ∙ (e ∙ ci))) tagged
              ∙ gk,
        ),
      )
