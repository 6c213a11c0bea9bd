-- ===== src/Replication/Hooks/Groups.antt =====
-- What the node knows of its groups after a hook.

use ipfs_lite.Prelude.{
  ◌≡◌, refl, ◌≢◌, sym, ◌∙◌, inl, inr, arith, Bool, true, not, ◌&&◌, List, [], ◌∷◌, ◌++◌, map, some,
  codes, Str, str_eq, str_eq_iff, str_eq_refl, has_prefix, split_slash, get_elem?, Dict, Result, ok,
  err, panic, All, NoSlash, Bool-cases, split_head, split_rest, split_head-append,
  split_rest-append, split_head-plain,
}
use ipfs_lite.Extern.Crdt.{Crdt}
use ipfs_lite.Extern.Keys.{Keys}
use ipfs_lite.Extern.KeyParts.{KeyParts}
use ipfs_lite.Extern.Bloom.{Bloom}
use ipfs_lite.Extern.FileSystem.{FileSystem}
use ipfs_lite.Extern.Json.{Json, decode}
use ipfs_lite.Repo.StateKeeper.{State, update_state}
use ipfs_lite.Repo.StateKeeper.Update.{Knows, apply, apply-adds}
use ipfs_lite.Replication.Types.{ContentMetatag, GroupMetadata}
use ipfs_lite.Replication.Tags.{group_index_prefix, join_slash, member_tag, index_tag}
use ipfs_lite.Replication.Group.{decode_all}
use ipfs_lite.Replication.Hooks.{
  Local, update_keeper, check_membership, get_content_metadata, joined, member_put, deliver,
  group_put, content_put, put_hook,
}
use ipfs_lite.Replication.Hooks.Known.{update_keeper_lem, add_to_state_lem}

All-of_map :
    {A B : Type 0} (P : B → Type 0) (f : A → B) (xs : List A)
    → All P (map f xs)
    → All (λ x. P (f x)) xs
All-of_map P f [] h = tt
All-of_map P f (x ∷ xs) h = (h.0, All-of_map P f xs h.1)

group_of_index :
    (kp : KeyParts) (g t : Str)
    → NoSlash g
    → get_elem? (KeyParts.key_list kp (index_tag g t)) 1 ≡ some g
unfolding split_slash split_head split_rest
group_of_index kp g t h = ground (
  arith,
  kp.key_list-rooted (codes "group-index" ++ b'/' ∷ join_slash g t),
  split_head-append g t h,
)

parts_of_member :
    (kp : KeyParts) (p g : Str)
    → NoSlash p
    → NoSlash g
    → (get_elem? (KeyParts.key_list kp (member_tag p g)) 1 ≡ some p)
      × (get_elem? (KeyParts.key_list kp (member_tag p g)) 2 ≡ some g)
unfolding split_slash split_head split_rest
parts_of_member kp p g hp hg = ground (
  arith,
  kp.key_list-rooted (codes "group-member" ++ b'/' ∷ join_slash p g),
  split_head-append p g hp,
  split_rest-append p g hp,
  split_head-plain g hg,
)

module _ (fs : FileSystem) (db : Crdt) (ks : Keys) (kp : KeyParts) {Filter : Type 0}
    ⦃bl : Bloom Filter⦄ ⦃fj : Json Filter⦄ ⦃sj : Json (Dict (State Filter))⦄
    ⦃gj : Json GroupMetadata⦄ ⦃mj : Json ContentMetatag⦄ (host : Str) (own_key : ks.PubKey) where
  open db use {World, new_key, get, query}
  open ks use {raw, base64, id_string}

  -- How the hook goes on at a content key of a group, and at a member key.
  hook-index_tag :
      (auto : Bool) (g t v : Str) (m : ContentMetatag) (w : World) (s : Local fs.World Filter)
      → NoSlash g
      → decode v ≡ ok m
      → put_hook fs db ks kp host own_key auto (index_tag g t) v w s
        ≡ group_put fs db ks kp host own_key auto m g w s
  unfolding put_hook content_put has_prefix
  hook-index_tag auto g t v m w s hg d = ground (arith, group_of_index kp g t hg)

  hook-member_tag :
      (auto : Bool) (p g v : Str) (w : World) (s : Local fs.World Filter)
      → NoSlash p
      → NoSlash g
      → put_hook fs db ks kp host own_key auto (member_tag p g) v w s
        ≡ joined fs db ks kp host own_key g p w s
  unfolding put_hook member_put has_prefix
  hook-member_tag auto p g v w s hp hg = ground (arith, parts_of_member kp p g hp hg)

  deliver-keeper :
      (auto : Bool) (m : ContentMetatag) (s s' : Local fs.World Filter)
      → deliver fs db ks kp host own_key auto m s ≡ ok s'
      → s'.keeper ≡ s.keeper
  unfolding deliver
  deliver-keeper auto m s s' h = elim (Bool-cases (not (str_eq host m.owner) && auto)) [
    | inl queued ↦ ground arith
    | inr here ↦ let lem = add_to_state_lem fs m.tag s s' (ground arith) in lem.1
  ]

  -- Content of a group whose identifier has no slash, where the store holds the node's own key
  -- under its member key of the group: when the put hook returns, the filter of the group passes
  -- the tag of the content that the value decodes to.
  pub group_content_known :
      (auto : Bool) (g t v key : Str) (m : ContentMetatag) (w : World)
      (s s' : Local fs.World Filter)
      → NoSlash g
      → decode v ≡ ok m
      → raw own_key ≡ ok key
      → get (new_key (member_tag (id_string host) g)) w ≡ ok (base64 key)
      → put_hook fs db ks kp host own_key auto (index_tag g t) v w s ≡ ok s'
      → Knows g m.tag s'.keeper
  unfolding group_put check_membership update_state apply
  group_content_known auto g t v key m w s s' hg d ek gk h =
      go (update_keeper fs g (m.tag ∷ []) s) refl (sym (hook-index_tag auto g t v m w s hg d) ∙ h)
    where
      go :
          (r : Result (Local fs.World Filter))
          → update_keeper fs g (m.tag ∷ []) s ≡ r
          → group_put fs db ks kp host own_key auto m g w s ≡ ok s'
          → Knows g m.tag s'.keeper
      go (ok s1) e h' =
          let delivered : deliver fs db ks kp host own_key auto m s1 ≡ ok s' =
            ground (arith, str_eq_refl (base64 key)) in
          let same =
            deliver-keeper auto m s1 s' delivered
            ∙ (update_keeper_lem fs g (m.tag ∷ []) s s1 e).0 in
          rw same
            (apply-adds (record { name = g; membership = true; deltas = m.tag ∷ [] }) s.keeper).0
      go (err x) e h' = absurd (ground (arith, str_eq_refl (base64 key)))
      go panic e h' = absurd (ground (arith, str_eq_refl (base64 key)))

  -- Content of a group whose identifier has no slash, where the store does not hold the node's
  -- own key under its member key of the group: the put hook returns and changes nothing. The
  -- value decodes, the node has a key, and reading the store does not panic.
  pub outsider_ignores :
      (auto : Bool) (g t v key : Str) (m : ContentMetatag) (w : World) (s : Local fs.World Filter)
      → NoSlash g
      → decode v ≡ ok m
      → raw own_key ≡ ok key
      → get (new_key (member_tag (id_string host) g)) w ≢ ok (base64 key)
      → get (new_key (member_tag (id_string host) g)) w ≢ panic
      → put_hook fs db ks kp host own_key auto (index_tag g t) v w s ≡ ok s
  unfolding group_put check_membership
  outsider_ignores auto g t v key m w s hg d ek other there =
      hook-index_tag auto g t v m w s hg d
      ∙ go (get (new_key (member_tag (id_string host) g)) w) refl
    where
      go :
          (r : Result Str)
          → get (new_key (member_tag (id_string host) g)) w ≡ r
          → group_put fs db ks kp host own_key auto m g w s ≡ ok s
      go (ok b) e = ground (arith, str_eq_iff (base64 key) b)
      go (err x) e = ground arith
      go panic e = absurd (ground arith)

  -- The node becomes a member of a group: when the put hook returns, the filter of the group
  -- passes the tags of all the content that the store lists for the group, and the node's own
  -- filter and the download channel are as before. The key of another peer changes nothing. The
  -- query succeeds, and the printed identifiers have no slash.
  pub joined_group_known :
      (auto : Bool) (p g v : Str) (es : List (Str × Str)) (w : World) (s s' : Local fs.World Filter)
      → NoSlash (id_string host)
      → NoSlash p
      → NoSlash g
      → query (join_slash group_index_prefix g) w ≡ ok es
      → p ≢ id_string host
      → put_hook fs db ks kp host own_key auto (member_tag (id_string host) g) v w s ≡ ok s'
      → All (λ m. Knows g m.tag s'.keeper) (decode_all db ks es)
        × (s'.state ≡ s.state)
        × (s'.queue ≡ s.queue)
        × (put_hook fs db ks kp host own_key auto (member_tag p g) v w s ≡ ok s)
  unfolding joined get_content_metadata update_state apply
  joined_group_known auto p g v es w s s' hh hp hg found other h =
      let now : update_keeper fs g (map (λ m. m.tag) (decode_all db ks es)) s ≡ ok s' =
        updated (sym (hook-member_tag auto (id_string host) g v w s hh hg) ∙ h) in
      let (ek, es', eq) =
        update_keeper_lem fs g (map (λ m. m.tag) (decode_all db ks es)) s s' now in
      (
        rw ek (
            All-of_map (λ t. Knows g t (update_state g true _ s.keeper)) (λ m. m.tag)
              (decode_all db ks es)
              (apply-adds (record { name = g; membership = true; deltas = _ }) s.keeper)),
        es',
        eq,
        hook-member_tag auto p g v w s hp hg ∙ ground (arith, str_eq_iff (id_string host) p),
      )
    where
      updated :
          joined fs db ks kp host own_key g (id_string host) w s ≡ ok s'
          → update_keeper fs g (map (λ m. m.tag) (decode_all db ks es)) s ≡ ok s'
      updated h' = ground (arith, str_eq_refl (id_string host))
