-- ===== src/Replication/Hooks/Panics.antt =====
-- The keys on which a hook panics.
use ipfs_lite.Prelude.{
  ◌≡◌, arith, Bool, [], ◌∷◌, ◌++◌, codes, Str, has_prefix-append, split_head, split_rest,
  split_slash, Dict, panic, NoSlash,
}
use ipfs_lite.Extern.Crdt.{Crdt}
use ipfs_lite.Extern.Keys.{Keys}
use ipfs_lite.Extern.KeyParts.{KeyParts}
use ipfs_lite.Extern.Bloom.{Bloom}
use ipfs_lite.Extern.FileSystem.{FileSystem}
use ipfs_lite.Extern.Json.{Json}
use ipfs_lite.Repo.StateKeeper.{State}
use ipfs_lite.Replication.Types.{ContentMetatag, GroupMetadata}
use ipfs_lite.Replication.Tags.{group_member_prefix}
use ipfs_lite.Replication.Hooks.{Local, member_put, put_hook}

plain_rest : (s : Str) → NoSlash s → split_rest s ≡ []
unfolding split_rest
plain_rest [] h = ground arith
plain_rest (c ∷ s) h = ground (arith, plain_rest s h.1)

module _ (fs : FileSystem) (db : Crdt) (ks : Keys) (kp : KeyParts) {Filter : Type 0}
    ⦃bl : Bloom Filter⦄ ⦃fj : Json Filter⦄ ⦃sj : Json (Dict (State Filter))⦄
    ⦃gj : Json GroupMetadata⦄ ⦃mj : Json ContentMetatag⦄ (host : Str) (own_key : ks.PubKey) where
  open db use {World}

  -- At a key that goes on after /group-member without a slash, such as that of content tagged
  -- group-membership, the put hook panics, whatever the value and the node's state: the key
  -- passes the prefix test of member keys, and has no pieces for a peer and a group.
  pub member_like_tag_panics :
      (auto : Bool) (t v : Str) (w : World) (s : Local fs.World Filter)
      → NoSlash t
      → put_hook fs db ks kp host own_key auto (group_member_prefix ++ t) v w s ≡ panic
  unfolding put_hook member_put split_slash split_head split_rest
  member_like_tag_panics auto t v w s h = ground (
    arith,
    has_prefix-append group_member_prefix t,
    kp.key_list-rooted (codes "group-member" ++ t),
    plain_rest t h,
  )
