-- ===== src/Tests/Codec.antt =====
-- A serialisation that stands in for encoding/json in the tests: every value is written with the
-- lengths of its lists before them, and read back in one pass.
use mathlib.Core.List.{append-nil, append_assoc}
use ipfs_lite.Prelude.{
  Error, Option, ℕ, zero, suc, ◌≡◌, refl, sym, ap, ◌∙◌, Bool, true, false, List, [], ◌∷◌, ◌++◌,
  length, none, ok, Str,
}
use ipfs_lite.Extern.Json.{Json}

pub record Codec (A : Type 0) : Type 0 where
  pub empty : A
  pub write : A → Str
  pub read : Str → A × Str
  pub read-write : (a : A) (rest : Str) → read (write a ++ rest) ≡ (a, rest)

abbrev read_number : Str → ℕ × Str
read_number [] = (0, [])
read_number (n ∷ s) = (n, s)

instance abbrev pub number : Codec ℕ
number = record { empty = 0; write = λ n. n ∷ []; read = read_number; read-write = λ n rest. refl }

abbrev write_bool : Bool → Str
write_bool true = 1 ∷ []
write_bool false = 0 ∷ []

abbrev read_bool : Str → Bool × Str
read_bool [] = (false, [])
read_bool (zero ∷ s) = (false, s)
read_bool (suc n ∷ s) = (true, s)

pub read-write_bool : (b : Bool) (rest : Str) → read_bool (write_bool b ++ rest) ≡ (b, rest)
read-write_bool true rest = refl
read-write_bool false rest = refl

instance abbrev pub boolean : Codec Bool
boolean = record {
  empty = false;
  write = write_bool;
  read = read_bool;
  read-write = read-write_bool;
}

module _ {A B : Type 0} ⦃a : Codec A⦄ ⦃b : Codec B⦄ where
  abbrev read_pair : Str → (A × B) × Str
  read_pair s = let (x, s') = a.read s in let (y, s'') = b.read s' in ((x, y), s'')

  pub read-write_pair :
      (p : A × B) (rest : Str) → read_pair ((a.write p.0 ++ b.write p.1) ++ rest) ≡ (p, rest)
  read-write_pair p rest = rw (
    append_assoc (a.write p.0) (b.write p.1) rest,
    a.read-write p.0 (b.write p.1 ++ rest),
    b.read-write p.1 rest,
  )

instance abbrev pub pair : {A B : Type 0} ⦃a : Codec A⦄ ⦃b : Codec B⦄ → Codec (A × B)
pair ⦃a⦄ ⦃b⦄ = record {
  empty = (a.empty, b.empty);
  write = λ p. a.write p.0 ++ b.write p.1;
  read = read_pair;
  read-write = read-write_pair;
}

module _ {A : Type 0} ⦃a : Codec A⦄ where
  abbrev write_all : List A → Str
  write_all [] = []
  write_all (x ∷ xs) = a.write x ++ write_all xs

  abbrev read_all : ℕ → Str → List A × Str
  read_all zero s = ([], s)
  read_all (suc n) s = let (x, s') = a.read s in let (xs, s'') = read_all n s' in (x ∷ xs, s'')

  pub read-write_all :
      (xs : List A) (rest : Str) → read_all (length xs) (write_all xs ++ rest) ≡ (xs, rest)
  read-write_all [] rest = refl
  read-write_all (x ∷ xs) rest = rw (
    append_assoc (a.write x) (write_all xs) rest,
    a.read-write x (write_all xs ++ rest),
    read-write_all xs rest,
  )

  abbrev read_list : Str → List A × Str
  read_list [] = ([], [])
  read_list (n ∷ s) = read_all n s

instance abbrev pub list : {A : Type 0} ⦃a : Codec A⦄ → Codec (List A)
list = record {
  empty = [];
  write = λ xs. length xs ∷ write_all xs;
  read = read_list;
  read-write = read-write_all;
}

-- A record by way of the tuple of its fields.
abbrev pub through :
    {A B : Type 0} ⦃b : Codec B⦄ (to : A → B) (of : B → A) → ((x : A) → of (to x) ≡ x) → Codec A
through ⦃b⦄ to of back = record {
  empty = of b.empty;
  write = λ x. b.write (to x);
  read = λ s. let (y, s') = b.read s in (of y, s');
  read-write = λ x rest. rw (b.read-write (to x) rest, back x);
}

pub unmarshal_written :
    {A : Type 0} ⦃c : Codec A⦄ (x : A) (s : Str)
    → ok (c.write x) ≡ ok s
    → ◌≡◌ {A = A × Option Error} ((c.read s).0, none) (x, none)
unmarshal_written ⦃c⦄ x s h =
    let e : c.write x ≡ s = cc in
    let back : c.read (c.write x) ≡ (x, []) =
      ap c.read (sym (append-nil (c.write x))) ∙ c.read-write x [] in
    ap (λ t. ((c.read t).0, none)) (sym e) ∙ ap (λ p. (p.0, none)) back

instance abbrev pub json_of : {A : Type 0} ⦃c : Codec A⦄ → Json A
json_of ⦃c⦄ = record {
  fresh = c.empty;
  marshal = λ x. ok (c.write x);
  unmarshal = λ s. ((c.read s).0, none);
  unmarshal-marshal = unmarshal_written;
}
