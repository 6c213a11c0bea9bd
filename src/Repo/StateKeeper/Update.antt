-- ===== src/Repo/StateKeeper/Update.antt =====
-- What the filters of the groups know after a sequence of updates.
use mathlib.Core.Path.{subst}
use ipfs_lite.Prelude.{
  sym, if_cases, ◌≡◌, refl, ◌≢◌, Bool, true, List, [], ◌∷◌, Str, str_eq, str_eq_iff, lookup,
  lookup-insert, lookup-insert_self, lookup-insert_ne, ok, All, All-map,
}
use ipfs_lite.Extern.Bloom.{Bloom}
use ipfs_lite.Repo.StateKeeper.{State, StateKeeper, filter_of, add_strings, update_state, get_state}

-- The calls of `AddOrUpdateState` that the node makes: a name, the membership and the new tags.
pub record Update : Type 0 where
  pub name : Str
  pub membership : Bool
  pub deltas : List Str

module _ {Filter : Type 0} ⦃bl : Bloom Filter⦄ where
  -- Whether the filter of a name passes a tag.
  abbrev pub Knows : Str → Str → StateKeeper Filter → Type 0
  Knows name tag s = bl.test_string (filter_of (lookup name s.states)) tag ≡ true

  add_strings-keeps :
      (deltas : List Str) (f : Filter) (t : Str)
      → bl.test_string f t ≡ true
      → bl.test_string (add_strings deltas f) t ≡ true
  unfolding add_strings
  add_strings-keeps [] f t h = h
  add_strings-keeps (v ∷ deltas) f t h =
      add_strings-keeps deltas (bl.add_string f v) t (bl.test-add_mono f v t h)

  add_strings-adds :
      (deltas : List Str) (f : Filter)
      → All (λ t. bl.test_string (add_strings deltas f) t ≡ true) deltas
  unfolding add_strings
  add_strings-adds [] f = tt
  add_strings-adds (v ∷ deltas) f = (
    add_strings-keeps deltas (bl.add_string f v) v (bl.test-add f v),
    add_strings-adds deltas (bl.add_string f v),
  )

  unfoldable pub apply : Update → StateKeeper Filter → StateKeeper Filter
  apply u s = update_state u.name u.membership u.deltas s

  -- After an update the name has a state with the given membership, its filter passes every new tag
  -- and every tag that it passed before, and the states of the other names and the root are as before.
  pub update_state_lem :
      (u : Update) (s : StateKeeper Filter) (t j : Str)
      → Knows u.name t s
      → j ≢ u.name
      → (st : State Filter) × (get_state u.name (apply u s) ≡ ok st)
        × (st.membership ≡ u.membership)
        × All (λ d. Knows u.name d (apply u s)) u.deltas
        × Knows u.name t (apply u s)
        × (get_state j (apply u s) ≡ get_state j s)
        × ((apply u s).root ≡ s.root)
  unfolding apply update_state get_state
  update_state_lem u s t j h ne =
      let f = add_strings u.deltas (filter_of (lookup u.name s.states)) in
      let st : State Filter = record { filter = f; membership = u.membership } in
      let here = lookup-insert_self u.name st s.states in
      (
        st,
        rw (here, get_state),
        refl,
        rw here (add_strings-adds u.deltas (filter_of (lookup u.name s.states))),
        rw here (add_strings-keeps u.deltas (filter_of (lookup u.name s.states)) t h),
        rw (lookup-insert_ne u.name j st s.states ne, get_state),
        refl,
      )

  unfoldable pub apply_all : List Update → StateKeeper Filter → StateKeeper Filter
  apply_all [] s = s
  apply_all (u ∷ us) s = apply_all us (apply u s)

  pub apply-adds :
      (u : Update) (s : StateKeeper Filter) → All (λ t. Knows u.name t (apply u s)) u.deltas
  unfolding apply update_state
  apply-adds u s =
      let f = filter_of (lookup u.name s.states) in
      rw (lookup-insert_self u.name _ s.states) (add_strings-adds u.deltas f)

  -- The filter that a name has after an update: the same, or with more tags.
  apply-keeps :
      (u : Update) (s : StateKeeper Filter) (name t : Str)
      → Knows name t s
      → Knows name t (apply u s)
  unfolding apply update_state
  apply-keeps u s name t h =
      let f = add_strings u.deltas (filter_of (lookup u.name s.states)) in
      let st : State Filter = record { filter = f; membership = u.membership } in
      rw (lookup-insert u.name name st s.states) (
        if_cases (λ o. bl.test_string (filter_of o) t ≡ true) (str_eq u.name name)
          (λ same.
            add_strings-keeps u.deltas _ t
              (subst (λ k. Knows k t s) (sym ((str_eq_iff u.name name).0 same)) h))
          (λ other. h))

  -- What a filter passes it passes after any further updates, of any names.
  apply_all-keeps :
      (us : List Update) (s : StateKeeper Filter) (name t : Str)
      → Knows name t s
      → Knows name t (apply_all us s)
  unfolding apply_all
  apply_all-keeps [] s name t h = h
  apply_all-keeps (u ∷ us) s name t h =
      apply_all-keeps us (apply u s) name t (apply-keeps u s name t h)

  -- No false negatives: after any sequence of updates the filter of a name passes every tag that
  -- an update of the sequence gave for the name.
  pub apply_all-Knows :
      (us : List Update) (s : StateKeeper Filter)
      → All (λ u. All (λ t. Knows u.name t (apply_all us s)) u.deltas) us
  unfolding apply_all
  apply_all-Knows [] s = tt
  apply_all-Knows (u ∷ us) s = (
    All-map _ _ u.deltas (λ t. apply_all-keeps us (apply u s) u.name t) (apply-adds u s),
    apply_all-Knows us (apply u s),
  )
