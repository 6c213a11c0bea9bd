-- ===== src/Cli/Socket/Split.antt =====
-- The daemon splits the arguments that a client has joined.
use ipfs_lite.Prelude.{
  arith, ℕ, ◌≡◌, refl, ◌≢◌, false, List, [], ◌∷◌, ◌++◌, codes, Str, has_prefix, All,
}
use ipfs_lite.Cli.Socket.{arg_separator, join_args, split_from, split_args}

-- The separator stands nowhere in a text.
abbrev pub Whole : Str → Type 0
Whole [] = Unit
Whole (c ∷ s) = (has_prefix (c ∷ s) arg_separator ≡ false) × Whole s

abbrev NoDollar : Str → Type 0
NoDollar [] = Unit
NoDollar (c ∷ s) = (c ≢ b'$') × NoDollar s

-- A text without a dollar stands at the start of what goes on with a dollar only if it stood there.
has_prefix-dollar : (a t p : Str) → NoDollar p → has_prefix (a ++ (b'$' ∷ t)) p ≡ has_prefix a p
unfolding has_prefix
has_prefix-dollar [] t [] h = refl
has_prefix-dollar [] t (c ∷ p) h = ground arith
has_prefix-dollar (d ∷ a) t [] h = refl
has_prefix-dollar (d ∷ a) t (c ∷ p) h = ground (arith, has_prefix-dollar a t p h.1)

separator_tail : Str
separator_tail = codes "^~@@*"

separator_tail-NoDollar : NoDollar (codes "^~@@*")
separator_tail-NoDollar = (
  (λ e. absurd (omega arith)),
  (
    (λ e. absurd (omega arith)),
    ((λ e. absurd (omega arith)), ((λ e. absurd (omega arith)), ((λ e. absurd (omega arith)), tt))),
  ),
)

no_separator :
    (a t : Str) (c : ℕ)
    → has_prefix (c ∷ a) arg_separator ≡ false
    → has_prefix ((c ∷ a) ++ (b'$' ∷ t)) arg_separator ≡ false
unfolding has_prefix
no_separator a t c h = ground (arith, has_prefix-dollar a t (codes "^~@@*") separator_tail-NoDollar)

split_from-append :
    (a rest : Str) → Whole a → split_from 0 (a ++ (arg_separator ++ rest)) ≡ (a, split_args rest)
unfolding split_from split_args has_prefix
split_from-append [] rest h = refl
split_from-append (c ∷ a) rest h =
    ground (arith, no_separator a (codes "^~@@*" ++ rest) c h.0, split_from-append a rest h.1)

split_from-Whole : (a : Str) → Whole a → split_from 0 a ≡ (a, [])
unfolding split_from
split_from-Whole [] h = refl
split_from-Whole (c ∷ a) h = ground (arith, h.0, split_from-Whole a h.1)

-- Arguments that a client has joined are split into the same arguments: there is one at least, and
-- the separator stands in none of them.
pub split_args-join_args :
    (a : Str) (args : List Str)
    → All Whole (a ∷ args)
    → split_args (join_args (a ∷ args)) ≡ a ∷ args
unfolding split_args join_args
split_args-join_args a [] h = ground (arith, split_from-Whole a h.0)
split_args-join_args a (b ∷ args) h =
    ground (arith, split_from-append a (join_args (b ∷ args)) h.0, split_args-join_args b args h.1)
