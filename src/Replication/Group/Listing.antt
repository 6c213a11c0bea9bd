-- ===== src/Replication/Group/Listing.antt =====
-- The groups that a peer is listed in.
use mathlib.Core.Path.{subst, subst₂}
use ipfs_lite.Replication.Tags.{member_tag-below, split-member_tag}
use ipfs_lite.Replication.Group.{group_at, include}
use ipfs_lite.Prelude.{
  ◌≡◌, refl, sym, ◌∙◌, ap, inl, inr, arith, Bool, true, false, List, [], ◌∷◌, Option, none, some,
  Str, str_eq, str_eq_iff, Result, ok, err, panic, In, NoSlash,
}
use ipfs_lite.Extern.Crdt.{Crdt}
use ipfs_lite.Extern.Keys.{Keys}
use ipfs_lite.Extern.Json.{Json, decode}
use ipfs_lite.Replication.Types.{ContentMetatag, GroupMetadata}
use ipfs_lite.Replication.Tags.{group_member_prefix, join_slash, group_tag, member_tag}
use ipfs_lite.Replication.Group.Access.{is_member_iff}
use ipfs_lite.Replication.Group.{
  is_member, group_meta, group_of_key, collect_groups, group_get_all_groups,
}

-- A round keeps what the later rounds find.
include-rest :
    (b : Bool) (q : Result (Option GroupMetadata)) (r : Result (List GroupMetadata))
    (gs : List GroupMetadata)
    → include b q r ≡ ok gs
    → (rest : List GroupMetadata) × (r ≡ ok rest) × ((x : GroupMetadata) → In x rest → In x gs)
unfolding include
include-rest false q (ok rest) gs h = (rest, refl, λ x. subst (In x) (ground arith))
include-rest false q (err e) gs h = absurd (ground arith)
include-rest false q panic gs h = absurd (ground arith)
include-rest true (ok none) (ok rest) gs h = (rest, refl, λ x. subst (In x) (ground arith))
include-rest true (ok none) (err e) gs h = absurd (ground arith)
include-rest true (ok none) panic gs h = absurd (ground arith)
include-rest true (ok (some g)) (ok rest) gs h =
    (rest, refl, λ x i. let e : g ∷ rest ≡ gs = ground arith in subst (In x) e (inr i))
include-rest true (ok (some g)) (err e) gs h = absurd (ground arith)
include-rest true (ok (some g)) panic gs h = absurd (ground arith)
include-rest true (err e) r gs h = absurd (ground arith)
include-rest true panic r gs h = absurd (ground arith)

include-here :
    (gm : GroupMetadata) (r : Result (List GroupMetadata)) (gs : List GroupMetadata)
    → include true (ok (some gm)) r ≡ ok gs
    → In gm gs
unfolding include
include-here gm (ok rest) gs h = let e : gm ∷ rest ≡ gs = ground arith in subst (In gm) e (inl refl)
include-here gm (err e) gs h = absurd (ground arith)
include-here gm panic gs h = absurd (ground arith)

module _ (db : Crdt) (ks : Keys) ⦃gj : Json GroupMetadata⦄ ⦃mj : Json ContentMetatag⦄ where
  open db use {World, new_key, get, put, query}
  open ks use {PrivKey, PubKey, public, raw, base64, id_string}

  In-collect_groups :
      (own k : Str) (gm : GroupMetadata) (es : List (Str × Str)) (w : World)
      (gs : List GroupMetadata)
      → In (k, own) es
      → group_of_key db ks k w ≡ ok (some gm)
      → collect_groups db ks own es w ≡ ok gs
      → In gm gs
  unfolding collect_groups
  In-collect_groups own k gm [] w gs i found h = elim i [ ]
  In-collect_groups own k gm ((k', v') ∷ es) w gs (inl same) found h =
      include-here gm (collect_groups db ks own es w) gs (
        subst₂ (λ b q. include b q (collect_groups db ks own es w) ≡ ok gs) test_passes group_found
          h)
    where
      test_passes : str_eq own v' ≡ true
      test_passes = (str_eq_iff own v').1 (cc)

      group_found : group_of_key db ks k' w ≡ ok (some gm)
      group_found = ap (λ (x : Str × Str). group_of_key db ks x.0 w) (sym same) ∙ found
  In-collect_groups own k gm ((k', v') ∷ es) w gs (inr later) found h =
      let (rest, e, keep) =
        include-rest (str_eq own v') (group_of_key db ks k' w) (collect_groups db ks own es w) gs
          h in
      keep gm (In-collect_groups own k gm es w rest later found e)

  group_at-meta :
      (group : Str) (gm : GroupMetadata) (w : World)
      → group_meta db ks group w ≡ ok gm
      → group_at db ks (id_string group) w ≡ ok (some gm)
  unfolding group_at group_meta
  group_at-meta group gm w h = go (get (new_key (group_tag (id_string group))) w) refl
    where
      go :
          (r : Result Str)
          → get (new_key (group_tag (id_string group))) w ≡ r
          → group_at db ks (id_string group) w ≡ ok (some gm)
      go (ok b) e = let d : decode b ≡ ok gm = ground arith in ground arith
      go (err x) e = absurd (ground arith)
      go panic e = absurd (ground arith)

  group_of_member_tag :
      (peer group : Str) (gm : GroupMetadata) (w : World)
      → NoSlash (id_string peer)
      → NoSlash (id_string group)
      → group_meta db ks group w ≡ ok gm
      → group_of_key db ks (member_tag (id_string peer) (id_string group)) w ≡ ok (some gm)
  unfolding group_of_key
  group_of_member_tag peer group gm w sp sg h =
      rw ((split-member_tag (id_string peer) (id_string group) sp sg).1, group_of_key)
        (group_at-meta group gm w h)

  -- The groups that a peer is told of include every group that is stored with metadata and holds the
  -- peer's own key under its member key, if the listing succeeds. The printed identifiers have no
  -- slash, and the member key is a clean path.
  pub member_group_listed :
      (peer group : Str) (key : PrivKey) (gm : GroupMetadata) (w : World) (gs : List GroupMetadata)
      → NoSlash (id_string peer)
      → NoSlash (id_string group)
      → new_key (member_tag (id_string peer) (id_string group))
        ≡ member_tag (id_string peer) (id_string group)
      → group_meta db ks group w ≡ ok gm
      → is_member db ks peer group key w ≡ ok tt
      → group_get_all_groups db ks peer key w ≡ ok gs
      → In gm gs
  unfolding group_get_all_groups
  member_group_listed peer group key gm w gs sp sg clean found member h =
      let (k, ek, gk) = (is_member_iff db ks peer group key w).0 member in
      go k ek gk (query (join_slash group_member_prefix (id_string peer)) w) refl
    where
      go :
          (k : Str)
          → raw (public key) ≡ ok k
          → get (new_key (member_tag (id_string peer) (id_string group))) w ≡ ok (base64 k)
          → (q : Result (List (Str × Str)))
          → query (join_slash group_member_prefix (id_string peer)) w ≡ q
          → In gm gs
      go k ek gk (ok es) e =
          In-collect_groups (base64 k) (member_tag (id_string peer) (id_string group)) gm es w gs
            (db.query-get _ _ (base64 k) w es e (rw clean at gk) (member_tag-below _ _))
            (group_of_member_tag peer group gm w sp sg found) (ground arith)
      go k ek gk (err x) e = absurd (ground arith)
      go k ek gk panic e = absurd (ground arith)
