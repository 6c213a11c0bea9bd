-- ===== src/Cli/Get/Names.antt =====
-- The loop over the names of get.go ends, and the name that it finds is free and stands in the folder.
use mathlib.Core.List.{append_cancel_left, append_cancel_right}
use ipfs_lite.Prelude.{
  arith, ℕ, zero, suc, ◌+◌, ◌≤◌, ◌<◌, ◌==◌, ◌≡◌, refl, ap, ◌≢◌, inl, inr, Bool, true, false, Option,
  none, some, List, [], ◌∷◌, ◌++◌, Str, str_eq, trim_suffix, length, In, Bool-cases,
}
use ipfs_lite.Prelude.Decimal.{decimal, decimal_injective}
use ipfs_lite.Prelude.Paths.{ext}
use ipfs_lite.Cli.Get.{candidate, free_name}

-- The list without the place of one element.
without : (x : Str) (xs : List Str) → In x xs → List Str
without x [] p = absurd p
without x (y ∷ ys) (inl e) = ys
without x (y ∷ ys) (inr p) = y ∷ without x ys p

length-without : (x : Str) (xs : List Str) (p : In x xs) → suc (length (without x xs p)) ≡ length xs
unfolding without
length-without x [] p = absurd p
length-without x (y ∷ ys) (inl e) = refl
length-without x (y ∷ ys) (inr p) = ap suc (length-without x ys p)

without-In : (x z : Str) (xs : List Str) (p : In x xs) → In z xs → z ≢ x → In z (without x xs p)
unfolding without
without-In x z [] p q h = absurd p
without-In x z (y ∷ ys) (inl e) (inl e') h = absurd (h (cc))
without-In x z (y ∷ ys) (inl e) (inr q) h = q
without-In x z (y ∷ ys) (inr p) (inl e') h = inl e'
without-In x z (y ∷ ys) (inr p) (inr q) h = inr (without-In x z ys p q h)

-- A list that holds the different values of so many numbers is that long.
pigeonhole :
    (f : ℕ → Str) (n : ℕ) (xs : List Str)
    → ((i j : ℕ) → f i ≡ f j → i ≡ j)
    → ((i : ℕ) → i < n → In (f i) xs)
    → n ≤ length xs
pigeonhole f zero xs inj all = omega arith
pigeonhole f (suc n) xs inj all =
    let p = all n (omega arith) in
    let rest = pigeonhole f n (without (f n) xs p) inj λ i lt.
      without-In (f n) (f i) xs p (all i (omega arith))
        (λ e. let same = inj i n e in absurd (omega arith)) in
    omega (arith, length-without (f n) xs p, rest)

-- Different numbers give different names, from the first that has a number.
candidate_injective :
    (output : Str) (n m : ℕ) → candidate output (suc n) ≡ candidate output (suc m) → n ≡ m
unfolding candidate
candidate_injective output n m h = elim (Bool-cases (str_eq (ext output) [])) [
  | inl plain ↦
      let e : output ++ (b'_' ∷ decimal (suc n)) ≡ output ++ (b'_' ∷ decimal (suc m)) =
        ground arith in
      let same = append_cancel_left output (b'_' ∷ decimal (suc n)) (b'_' ∷ decimal (suc m)) e in
      let digits : decimal (suc n) ≡ decimal (suc m) = ground arith in
      let numbers = decimal_injective (suc n) (suc m) digits in omega arith
  | inr dotted ↦
      let stem = trim_suffix output (ext output) in
      let e : stem ++ (b'_' ∷ (decimal (suc n) ++ ext output))
          ≡ stem ++ (b'_' ∷ (decimal (suc m) ++ ext output)) =
        ground arith in
      let same =
        append_cancel_left stem (b'_' ∷ (decimal (suc n) ++ ext output))
          (b'_' ∷ (decimal (suc m) ++ ext output)) e in
      let tails : decimal (suc n) ++ ext output ≡ decimal (suc m) ++ ext output = ground arith in
      let digits = append_cancel_right (decimal (suc n)) (decimal (suc m)) (ext output) tails in
      let numbers = decimal_injective (suc n) (suc m) digits in omega arith
]

-- The loop that has not ended has seen only names that are taken.
still_taken :
    (fuel : ℕ) (exists : Str → Bool) (output : Str) (count : ℕ)
    → free_name fuel exists output count ≡ none
    → (j : ℕ) → count ≤ j
    → j < count + fuel
    → exists (candidate output j) ≡ true
unfolding free_name
still_taken zero exists output count h j low high = absurd (omega arith)
still_taken (suc fuel) exists output count h j low high = elim (Bool-cases (j == count)) [
  | inl here ↦
      let e : j ≡ count = ground arith in
      let taken : exists (candidate output count) ≡ true = ground arith in cc
  | inr later ↦
      let rest : free_name fuel exists output (suc count) ≡ none = ground arith in
      let next : suc count ≤ j = ground arith in
      still_taken fuel exists output (suc count) rest j next (omega arith)
]

-- The loop ends, with fuel for one name more than there are files, and one for the name without a
-- number.
pub free_name_ends :
    (fuel : ℕ) (exists : Str → Bool) (output : Str) (files : List Str)
    → ((p : Str) → exists p ≡ true → In p files)
    → suc (length files) < fuel
    → (path : Str) × (free_name fuel exists output 0 ≡ some path)
free_name_ends fuel exists output files known enough = go (free_name fuel exists output 0) refl
  where
    go :
        (o : Option Str)
        → free_name fuel exists output 0 ≡ o
        → (path : Str) × (free_name fuel exists output 0 ≡ some path)
    go (some path) e = (path, e)
    go none e =
        let many =
          pigeonhole (λ i. candidate output (suc i)) (suc (length files)) files
            (candidate_injective output)
            λ i lt.
              known (candidate output (suc i))
                (still_taken fuel exists output 0 e (suc i) (omega arith) (omega arith)) in
        absurd (omega arith)

-- The name that the loop finds is one of the names, and no file has it.
pub free_name-free :
    (fuel : ℕ) (exists : Str → Bool) (output : Str) (count : ℕ) (path : Str)
    → free_name fuel exists output count ≡ some path
    → (exists path ≡ false) × (n : ℕ) × (path ≡ candidate output n)
unfolding free_name
free_name-free zero exists output count path h = absurd (ground arith)
free_name-free (suc fuel) exists output count path h =
    elim (Bool-cases (exists (candidate output count))) [
      | inl taken ↦ free_name-free fuel exists output (suc count) path (ground arith)
      | inr free ↦ (ground arith, count, ground arith)
    ]
