-- ===== src/Matrix/Content/Providers.antt =====
-- The providers of a hash form a set, in the order in which they were found.
use ipfs_lite.Prelude.{
  ◌≡◌, refl, inl, inr, false, ◌||◌, List, [], ◌∷◌, ◌++◌, some, arith, Str, str_eq, str_eq_iff,
  str_eq_refl, Dict, lookup, insert, lookup-insert_self, insert-insert, ok, Bool-cases,
}
use ipfs_lite.Extern.Floats.{Float32}
use ipfs_lite.Matrix.Content.{
  ContentMatrix, is_provider, provide_entry, with_entry, content_add_provider,
}

-- No provider is listed twice.
abbrev pub Distinct : List Str → Type 0
Distinct [] = Unit
Distinct (v ∷ vs) = (is_provider v vs ≡ false) × Distinct vs

is_provider-append :
    (p q : Str) (vs : List Str) → is_provider p (vs ++ q ∷ []) ≡ (is_provider p vs || str_eq q p)
unfolding is_provider
is_provider-append p q [] = ground arith
is_provider-append p q (v ∷ vs) = ground (arith, is_provider-append p q vs)

Distinct-append :
    (p : Str) (vs : List Str) → is_provider p vs ≡ false → Distinct vs → Distinct (vs ++ p ∷ [])
unfolding is_provider
Distinct-append p [] h d = (refl, tt)
Distinct-append p (v ∷ vs) h d = (
  ground (arith, is_provider-append v p vs, str_eq_iff v p, str_eq_iff p v),
  Distinct-append p vs (ground arith) d.1,
)

module _ {F : Type 0} ⦃fl : Float32 F⦄ where
  is_provider-provide :
      (p q : Str) (c : ContentMatrix F)
      → is_provider q (provide_entry p c).provided_by ≡ (is_provider q c.provided_by || str_eq p q)
  unfolding provide_entry
  is_provider-provide p q c = ground (arith, is_provider-append q p c.provided_by, str_eq_iff p q)

  provide-Distinct :
      (p : Str) (c : ContentMatrix F)
      → Distinct c.provided_by
      → Distinct (provide_entry p c).provided_by
  unfolding provide_entry
  provide-Distinct p c d = elim (Bool-cases (is_provider p c.provided_by)) [
    | inl known ↦ rw known d
    | inr new ↦ rw new (Distinct-append p c.provided_by new d)
  ]

  provide-provide :
      (p : Str) (c : ContentMatrix F) → provide_entry p (provide_entry p c) ≡ provide_entry p c
  unfolding provide_entry
  provide-provide p c = ground (arith, is_provider-append p p c.provided_by, str_eq_refl p)

  -- Adding a provider to a known hash returns. The entry then lists the provider, still lists
  -- exactly the former ones besides, and no provider twice; adding it once more changes nothing.
  pub content_add_provider_lem :
      (hash p q : Str) (c : ContentMatrix F) (m : Dict (ContentMatrix F))
      → lookup hash m ≡ some c
      → Distinct c.provided_by
      → (c' : ContentMatrix F) × (content_add_provider hash p m ≡ ok (insert hash c' m))
        × Distinct c'.provided_by
        × (is_provider q c'.provided_by ≡ (is_provider q c.provided_by || str_eq p q))
        × (content_add_provider hash p (insert hash c' m) ≡ ok (insert hash c' m))
  unfolding content_add_provider with_entry
  content_add_provider_lem hash p q c m found d = (
    provide_entry p c,
    rw (found, with_entry),
    provide-Distinct p c d,
    is_provider-provide p q c,
    ground (
      arith,
      lookup-insert_self hash (provide_entry p c) m,
      insert-insert hash (provide_entry p (provide_entry p c)) (provide_entry p c) m,
      provide-provide p c,
    ),
  )
