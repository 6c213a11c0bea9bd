-- ===== src/Replication/Group/Access.antt =====
-- Who may do what in a group.
use ipfs_lite.Prelude.{
  ◌≡◌, refl, ◌≢◌, ◌↔◌, ◌⊎◌, arith, true, false, List, ◌∷◌, ◌++◌, codes, Str, str_eq_iff,
  str_eq_refl, Error, Result, ok, err, panic,
}
use ipfs_lite.Extern.Crdt.{Crdt}
use ipfs_lite.Extern.Keys.{Keys}
use ipfs_lite.Extern.Json.{Json, decode}
use ipfs_lite.Replication.Types.{ContentMetatag, GroupMetadata}
use ipfs_lite.Replication.Tags.{group_index_prefix, join_slash, group_tag, member_tag}
use ipfs_lite.Replication.Group.{
  is_member, group_meta, authorize, group_add_member, group_get_info, group_add_content, decode_all,
  group_get_all_content,
}

module _ (db : Crdt) (ks : Keys) ⦃gj : Json GroupMetadata⦄ ⦃mj : Json ContentMetatag⦄ where
  open db use {World, new_key, get, put, query}
  open ks use {PrivKey, PubKey, public, raw, base64, id_string}

  -- A peer counts as a member where the store holds the peer's own public key under its member key.
  pub is_member_iff :
      (peer group : Str) (key : PrivKey) (w : World)
      → (is_member db ks peer group key w ≡ ok tt) ↔ (
          (k : Str) × (raw (public key) ≡ ok k)
          × (get (new_key (member_tag (id_string peer) (id_string group))) w ≡ ok (base64 k)))
  unfolding is_member
  is_member_iff peer group key w = (to (raw (public key)) refl, λ h. back h.0 h.1 h.2)
    where
      stored : Result Str
      stored = get (new_key (member_tag (id_string peer) (id_string group))) w

      to :
          (r : Result Str)
          → raw (public key) ≡ r
          → is_member db ks peer group key w ≡ ok tt
          → (k : Str) × (raw (public key) ≡ ok k) × (stored ≡ ok (base64 k))
      to (ok k) e h = (k, e, go stored refl)
        where
          go : (s : Result Str) → stored ≡ s → stored ≡ ok (base64 k)
          go (ok b) e' = ground (arith, str_eq_iff (base64 k) b)
          go (err x) e' = absurd (ground arith)
          go panic e' = absurd (ground arith)
      to (err x) e h = absurd (ground arith)
      to panic e h = absurd (ground arith)

      back :
          (k : Str)
          → raw (public key) ≡ ok k
          → stored ≡ ok (base64 k)
          → is_member db ks peer group key w ≡ ok tt
      back k e h = ground (arith, str_eq_refl (base64 k))

  -- The two checks of `authorize`.
  pub checks_iff :
      (peer group : Str) (key : PrivKey) (w : World) (gm : GroupMetadata)
      → (authorize db ks peer group key w ≡ ok gm) ↔ (
          (group_meta db ks group w ≡ ok gm)
          × ((gm.is_open ≡ true) ⊎ (gm.owner_id ≡ peer))
          × (is_member db ks peer group key w ≡ ok tt))
  unfolding authorize
  checks_iff peer group key w gm = (to (group_meta db ks group w) refl, λ h. back h.0 h.1 h.2)
    where
      to :
          (r : Result GroupMetadata)
          → group_meta db ks group w ≡ r
          → authorize db ks peer group key w ≡ ok gm
          → (group_meta db ks group w ≡ ok gm)
            × ((gm.is_open ≡ true) ⊎ (gm.owner_id ≡ peer))
            × (is_member db ks peer group key w ≡ ok tt)
      to (ok g) e h = ground (arith, str_eq_iff g.owner_id peer)
      to (err x) e h = absurd (ground arith)
      to panic e h = absurd (ground arith)

      back :
          group_meta db ks group w ≡ ok gm
          → (gm.is_open ≡ true) ⊎ (gm.owner_id ≡ peer)
          → is_member db ks peer group key w ≡ ok tt
          → authorize db ks peer group key w ≡ ok gm
      back e a m = ground (arith, str_eq_iff gm.owner_id peer)

  group_meta_iff :
      (group : Str) (w : World) (gm : GroupMetadata)
      → (group_meta db ks group w ≡ ok gm)
        ↔ ((b : Str) × (get (new_key (group_tag (id_string group))) w ≡ ok b) × (decode b ≡ ok gm))
  unfolding group_meta
  group_meta_iff group w gm =
      (to (get (new_key (group_tag (id_string group))) w) refl, λ h. back h.0 h.1 h.2)
    where
      to :
          (r : Result Str)
          → get (new_key (group_tag (id_string group))) w ≡ r
          → group_meta db ks group w ≡ ok gm
          → (b : Str) × (get (new_key (group_tag (id_string group))) w ≡ ok b) × (decode b ≡ ok gm)
      to (ok b) e h = (b, e, ground arith)
      to (err x) e h = absurd (ground arith)
      to panic e h = absurd (ground arith)

      back :
          (b : Str)
          → get (new_key (group_tag (id_string group))) w ≡ ok b
          → decode b ≡ ok gm
          → group_meta db ks group w ≡ ok gm
      back b e d = ground arith

  -- A caller passes the check of a group, and then has its metadata, exactly when the store has bytes
  -- under the group's key that decode to them, the group is open or the caller is its owner, and the
  -- bytes under the caller's member key of the group are the text of the caller's own public key.
  pub authorize_iff :
      (peer group : Str) (key : PrivKey) (w : World) (gm : GroupMetadata)
      → (authorize db ks peer group key w ≡ ok gm) ↔ (
          ((b : Str) × (get (new_key (codes "/groups" ++ (b'/' ∷ id_string group))) w ≡ ok b)
            × (decode b ≡ ok gm))
          × ((gm.is_open ≡ true) ⊎ (gm.owner_id ≡ peer))
          × ((k : Str) × (raw (public key) ≡ ok k)
              × (get
                    (new_key (
                      codes "/group-member"
                      ++ (b'/' ∷ (id_string peer ++ (b'/' ∷ id_string group)))))
                    w
                  ≡ ok (base64 k))))
  authorize_iff peer group key w gm =
      let (to, back) = checks_iff peer group key w gm in
      let (to_meta, from_meta) = group_meta_iff group w gm in
      let (to_member, from_member) = is_member_iff peer group key w in
      (
        λ h. let (m, a, k) = to h in (to_meta m, a, to_member k),
        λ h. back (from_meta h.0, h.1, from_member h.2),
      )

  closed_lem :
      (peer group : Str) (key : PrivKey) (gm : GroupMetadata) (w : World)
      → group_meta db ks group w ≡ ok gm
      → gm.is_open ≡ false
      → gm.owner_id ≢ peer
      → authorize db ks peer group key w ≡ err Error.no_permission
  unfolding authorize
  closed_lem peer group key gm w e closed other = ground (arith, str_eq_iff gm.owner_id peer)

  -- A refused caller changes nothing: adding a member and adding content fail with the error of the
  -- check, and the store is as before.
  pub refused_unchanged :
      (peer new_peer group : Str) (key : PrivKey) (member_key : PubKey) (meta : ContentMetatag)
      (w : World) (e : Error)
      → authorize db ks peer group key w ≡ err e
      → (group_add_member db ks peer new_peer group key member_key w ≡ (err e, w))
        × (group_add_content db ks peer group key meta w ≡ (err e, w))
  unfolding group_add_member group_add_content
  refused_unchanged peer new_peer group key member_key meta w e h = (ground arith, ground arith)

  -- In a closed group only the owner may act: a member who is not the owner is refused the
  -- group's information, adding members and adding content, and nothing is stored, while listing
  -- the contents, which asks for the membership alone, gives all that the store has, where the
  -- store's query succeeds.
  pub closed_group_refuses :
      (peer new_peer group : Str) (key : PrivKey) (member_key : PubKey) (meta : ContentMetatag)
      (gm : GroupMetadata) (w : World) (es : List (Str × Str))
      → group_meta db ks group w ≡ ok gm
      → gm.is_open ≡ false
      → gm.owner_id ≢ peer
      → is_member db ks peer group key w ≡ ok tt
      → query (join_slash group_index_prefix (id_string group)) w ≡ ok es
      → (group_get_info db ks peer group key w ≡ err Error.no_permission)
        × (group_add_member db ks peer new_peer group key member_key w
            ≡ (err Error.no_permission, w))
        × (group_add_content db ks peer group key meta w ≡ (err Error.no_permission, w))
        × (group_get_all_content db ks peer group key w ≡ ok (decode_all db ks es))
  unfolding group_get_info group_get_all_content
  closed_group_refuses peer new_peer group key member_key meta gm w es e closed other member found =
      let refused = closed_refused in
      let both =
        refused_unchanged peer new_peer group key member_key meta w Error.no_permission refused in
      (refused, both.0, both.1, ground arith)
    where
      closed_refused : authorize db ks peer group key w ≡ err Error.no_permission
      closed_refused = closed_lem peer group key gm w e closed other
