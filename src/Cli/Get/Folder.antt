-- ===== src/Cli/Get/Folder.antt =====
-- A name without a slash, put after a folder: its last part, its extension and its candidates.
use mathlib.Core.List.{append_assoc}
use mathlib.Core.Path.{subst}
use ipfs_lite.Prelude.{
  arith, ℕ, zero, suc, ◌+◌, ◌-◌, ◌%◌, ◌==◌, ltb, ◌≡◌, refl, ap, sym, ◌∙◌, ◌≢◌, inl, inr, Option,
  none, some, [], ◌∷◌, ◌++◌, Str, str_eq, str_eq_refl, trim_suffix, length, length-append, take,
  drop, Bool-cases, NoSlash, split_head, split_rest, split_head-plain, if_cases, ◌/◌,
}
use ipfs_lite.Prelude.Decimal.{decimal, digits}
use ipfs_lite.Prelude.Paths.{ext, ext_from, base, trim_slashes, last_part}
use ipfs_lite.Cli.Get.{candidate}

split_rest-plain : (n : Str) → NoSlash n → split_rest n ≡ []
unfolding split_rest
split_rest-plain [] h = refl
split_rest-plain (c ∷ n) h = ground (arith, split_rest-plain n h.1)

last_part-split : (d n q : Str) → NoSlash n → last_part q (split_rest (d ++ (b'/' ∷ n))) ≡ n
unfolding last_part split_rest
last_part-split [] n q h = ground (arith, split_rest-plain n h, split_head-plain n h)
last_part-split (c ∷ d) n q h = elim (Bool-cases (c == b'/')) [
  | inl slash ↦ ground (arith, last_part-split d n (split_head (d ++ (b'/' ∷ n))) h)
  | inr other ↦ ground (arith, last_part-split d n q h)
]

trim_slashes-plain : (n : Str) → NoSlash n → trim_slashes n ≡ n
unfolding trim_slashes
trim_slashes-plain [] h = refl
trim_slashes-plain (c ∷ []) h = ground arith
trim_slashes-plain (c ∷ d ∷ n) h = ground (arith, trim_slashes-plain (d ∷ n) h.1)

trim_slashes-slash : (n : Str) → NoSlash n → n ≢ [] → trim_slashes (b'/' ∷ n) ≡ b'/' ∷ n
unfolding trim_slashes
trim_slashes-slash [] h ne = absurd (ne refl)
trim_slashes-slash (c ∷ n) h ne = ground (arith, trim_slashes-plain (c ∷ n) h)

trim_slashes-append :
    (d s : Str) (c : ℕ) → trim_slashes (c ∷ s) ≡ c ∷ s → trim_slashes (d ++ (c ∷ s)) ≡ d ++ (c ∷ s)
unfolding trim_slashes
trim_slashes-append [] s c h = h
trim_slashes-append (b ∷ []) s c h = ground (arith, h)
trim_slashes-append (b ∷ b' ∷ d) s c h = ground (arith, trim_slashes-append (b' ∷ d) s c h)

-- The last part of a path is the name that stands after the folder.
pub base-append : (d n : Str) → NoSlash n → n ≢ [] → base (d ++ (b'/' ∷ n)) ≡ n
unfolding base
base-append [] n h ne =
    ground (arith, trim_slashes-slash n h ne, last_part-split [] n (split_head (b'/' ∷ n)) h)
base-append (c ∷ d) n h ne =
    let kept = trim_slashes-append (c ∷ d) n b'/' (trim_slashes-slash n h ne) in
    ground (arith, kept, last_part-split (c ∷ d) n (split_head (c ∷ (d ++ (b'/' ∷ n)))) h)

ext_from-append : (d n : Str) → NoSlash n → ext_from (d ++ (b'/' ∷ n)) ≡ some (ext n)
unfolding ext ext_from
ext_from-append [] n h = go (ext_from n) refl
  where
    go : (o : Option Str) → ext_from n ≡ o → ext_from (b'/' ∷ n) ≡ some (ext n)
    go (some e) q = ground arith
    go none q = ground arith
ext_from-append (c ∷ d) n h = ground (arith, ext_from-append d n h)

ext-append : (d n : Str) → NoSlash n → ext (d ++ (b'/' ∷ n)) ≡ ext n
unfolding ext
ext-append d n h = ground (arith, ext_from-append d n h)

-- A name is its stem and its extension.
stem_of : (n : Str) → NoSlash n → (s : Str) × (n ≡ s ++ ext n)
unfolding ext ext_from
stem_of [] h = ([], refl)
stem_of (c ∷ n) h = go (ext_from n) refl (stem_of n h.1)
  where
    go :
        (o : Option Str)
        → ext_from n ≡ o
        → (s : Str) × (n ≡ s ++ ext n)
        → (s : Str) × (c ∷ n ≡ s ++ ext (c ∷ n))
    go (some e) q (s, r) = (c ∷ s, ground arith)
    go none q (s, r) = elim (Bool-cases (c == b'.')) [
      | inl dot ↦ ([], ground arith)
      | inr other ↦ (c ∷ s, ground arith)
    ]

drop-append : (s e : Str) → drop (length s) (s ++ e) ≡ e
drop-append [] e = refl
drop-append (c ∷ s) e = drop-append s e

take-append : (s e : Str) → take (length s) (s ++ e) ≡ s
take-append [] e = refl
take-append (c ∷ s) e = ap (λ t. c ∷ t) (take-append s e)

trim_suffix-append : (s e : Str) → trim_suffix (s ++ e) e ≡ s
unfolding trim_suffix
trim_suffix-append s e =
    let n : length (s ++ e) - length e ≡ length s = omega (arith, length-append s e) in
    ground (arith, n, drop-append s e, take-append s e, str_eq_refl e)

-- The candidates for a name in a folder stand in the folder, under the candidates for the name.
pub candidate-append :
    (d n : Str) (k : ℕ) → NoSlash n → candidate (d ++ (b'/' ∷ n)) k ≡ d ++ (b'/' ∷ candidate n k)
unfolding candidate
candidate-append d n zero h = refl
candidate-append d n (suc k) h =
    let (s, e) = stem_of n h in
    let same = ext-append d n h in
    let whole : d ++ (b'/' ∷ n) ≡ (d ++ (b'/' ∷ s)) ++ ext n =
      ap (λ t. d ++ (b'/' ∷ t)) e ∙ sym (append_assoc d (b'/' ∷ s) (ext n)) in
    let front : trim_suffix (d ++ (b'/' ∷ n)) (ext n) ≡ d ++ (b'/' ∷ s) =
      ap (λ t. trim_suffix t (ext n)) whole ∙ trim_suffix-append (d ++ (b'/' ∷ s)) (ext n) in
    let short : trim_suffix n (ext n) ≡ s =
      ap (λ t. trim_suffix t (ext n)) e ∙ trim_suffix-append s (ext n) in
    ground (
      arith,
      same,
      front,
      short,
      append_assoc d (b'/' ∷ n) (b'_' ∷ decimal (suc k)),
      append_assoc d (b'/' ∷ s) (b'_' ∷ (decimal (suc k) ++ ext n)),
    )

NoSlash-append : (s t : Str) → NoSlash s → NoSlash t → NoSlash (s ++ t)
NoSlash-append [] t g h = h
NoSlash-append (c ∷ s) t (a, g) h = (a, NoSlash-append s t g h)

append-NoSlash : (s t : Str) → NoSlash (s ++ t) → NoSlash s × NoSlash t
append-NoSlash [] t h = (tt, h)
append-NoSlash (c ∷ s) t (a, h) = let (g, g') = append-NoSlash s t h in ((a, g), g')

digits-NoSlash : (fuel n : ℕ) → NoSlash (digits fuel n)
unfolding digits
digits-NoSlash zero n = tt
digits-NoSlash (suc fuel) n =
    if_cases NoSlash (ltb n 10) (λ small. ((λ e. absurd (omega arith)), tt))
      λ big.
        NoSlash-append (digits fuel (n / 10)) ((b'0' + n % 10) ∷ []) (digits-NoSlash fuel (n / 10))
          ((λ e. absurd (omega arith)), tt)

numbered-NoSlash : (k : ℕ) → NoSlash (b'_' ∷ decimal k)
unfolding decimal
numbered-NoSlash k = ((λ e. absurd (omega arith)), digits-NoSlash (suc k) k)

append_not_nil : (s t : Str) (c : ℕ) → s ++ (c ∷ t) ≢ []
append_not_nil [] t c e = absurd (ground arith)
append_not_nil (d ∷ s) t c e = absurd (ground arith)

-- The candidates for a name without a slash are names without a slash.
pub candidate-NoSlash :
    (n : Str) (k : ℕ) → NoSlash n → n ≢ [] → NoSlash (candidate n k) × (candidate n k ≢ [])
unfolding candidate
candidate-NoSlash n zero h ne = (h, ne)
candidate-NoSlash n (suc k) h ne =
    if_cases (λ t. NoSlash t × (t ≢ [])) (str_eq (ext n) [])
      (λ plain. (
        NoSlash-append n (b'_' ∷ decimal (suc k)) h (numbered-NoSlash (suc k)),
        append_not_nil n (decimal (suc k)) b'_',
      ))
      λ dotted.
        let (s, e) = stem_of n h in
        let short : trim_suffix n (ext n) ≡ s =
          ap (λ t. trim_suffix t (ext n)) e ∙ trim_suffix-append s (ext n) in
        let (hs, hx) = append-NoSlash s (ext n) (subst NoSlash e h) in
        (
          NoSlash-append (trim_suffix n (ext n)) (b'_' ∷ (decimal (suc k) ++ ext n))
              (subst NoSlash (sym short) hs)
              (NoSlash-append (b'_' ∷ decimal (suc k)) (ext n) (numbered-NoSlash (suc k)) hx),
          append_not_nil (trim_suffix n (ext n)) (decimal (suc k) ++ ext n) b'_',
        )
