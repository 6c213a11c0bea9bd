-- ===== src/Replication/Tags.antt =====
-- The keys of the replicated store: internal/replication's prefixes and the `fmt.Sprintf` calls
-- that join them to the printed identifiers.
use mathlib.Core.Bool.{false≢true}
use ipfs_lite.Prelude.{
  ap, ◌∙◌, has_prefix-append, sym, ◌≢◌, true, ◌≡◌, refl, arith, false, [], ◌∷◌, ◌++◌, some, codes,
  Str, has_prefix, NoSlash, split_head, split_rest, split_slash, split_head-append,
  split_rest-append, split_head-plain, get_elem?,
}

abbrev pub group_prefix : Str
group_prefix = codes "/groups"

abbrev pub group_member_prefix : Str
group_member_prefix = codes "/group-member"

abbrev pub group_index_prefix : Str
group_index_prefix = codes "/group-index"

-- `fmt.Sprintf("%s/%s", a, b)`
abbrev pub join_slash : Str → Str → Str
join_slash a b = a ++ b'/' ∷ b

abbrev pub group_tag : Str → Str
group_tag group = join_slash group_prefix group

abbrev pub member_tag : Str → Str → Str
member_tag peer group = join_slash group_member_prefix (join_slash peer group)

abbrev pub index_tag : Str → Str → Str
index_tag group tag = join_slash group_index_prefix (join_slash group tag)

-- The parts that the program reads back: splitting a member key at its slashes gives the peer as
-- piece 2 and the group as piece 3, whatever identifiers without a slash it was made from.
pub split-member_tag :
    (peer group : Str)
    → NoSlash peer
    → NoSlash group
    → (get_elem? (split_slash (member_tag peer group)) 2 ≡ some peer)
      × (get_elem? (split_slash (member_tag peer group)) 3 ≡ some group)
unfolding split_slash split_head split_rest
split-member_tag peer group hp hg = ground (
  arith,
  split_head-append peer group hp,
  split_rest-append peer group hp,
  split_head-plain group hg,
)

-- A key with one prefix is no key that lacks it.
prefix_apart : (p k j : Str) → has_prefix j p ≡ true → has_prefix k p ≡ false → k ≢ j
prefix_apart p k j h h' e = false≢true (sym h' ∙ ap (λ s. has_prefix s p) e ∙ h)

pub group-ne-member : (g p g' : Str) → group_tag g ≢ member_tag p g'
unfolding has_prefix
group-ne-member g p g' =
    prefix_apart group_member_prefix (group_tag g) (member_tag p g')
      (has_prefix-append group_member_prefix (b'/' ∷ join_slash p g')) refl

pub group-ne-index : (g g' t : Str) → group_tag g ≢ index_tag g' t
unfolding has_prefix
group-ne-index g g' t =
    prefix_apart group_index_prefix (group_tag g) (index_tag g' t)
      (has_prefix-append group_index_prefix (b'/' ∷ join_slash g' t)) refl

pub member-ne-index : (p g g' t : Str) → member_tag p g ≢ index_tag g' t
unfolding has_prefix
member-ne-index p g g' t =
    prefix_apart group_index_prefix (member_tag p g) (index_tag g' t)
      (has_prefix-append group_index_prefix (b'/' ∷ join_slash g' t)) refl

below : (g t : Str) → has_prefix (g ++ b'/' ∷ t) (g ++ b'/' ∷ []) ≡ true
unfolding has_prefix
below [] t = refl
below (c ∷ g) t = ground (arith, below g t)

-- A content key stands below the index of its group, and a member key below its peer.
pub index_tag-below :
    (g t : Str) → has_prefix (index_tag g t) (join_slash group_index_prefix g ++ b'/' ∷ []) ≡ true
unfolding has_prefix
index_tag-below g t = below g t

pub member_tag-below :
    (p g : Str) → has_prefix (member_tag p g) (join_slash group_member_prefix p ++ b'/' ∷ []) ≡ true
unfolding has_prefix
member_tag-below p g = below p g
