-- ===== src/Tests/Repo.antt =====
-- The theorems on the repository at concrete calls.
use ipfs_lite.Prelude.{
  str_eq_iff, ◌≡◌, refl, ◌≢◌, true, false, List, [], ◌∷◌, ok, codes, Str, str_eq, lookup, insert,
  All,
}
use ipfs_lite.Repo.StateKeeper.{
  StateKeeper, filter_of, update_state, load_state_keeper, add_or_update_state, save_states,
  add_strings,
}
use ipfs_lite.Repo.StateKeeper.Update.{Update, Knows, apply_all, apply_all-Knows}
use ipfs_lite.Repo.StateKeeper.Load.{load-add_or_update}
use ipfs_lite.Tests.Worlds.{map_files, list_bloom}
use ipfs_lite.Tests.Codec.{json_of, list, pair, number}
use ipfs_lite.Tests.Codecs.{state}

abbrev joined : Update
joined = record { name = codes "g1"; membership = true; deltas = codes "a" ∷ codes "b" ∷ [] }

abbrev more : Update
more = record { name = codes "g1"; membership = true; deltas = codes "c" ∷ [] }

abbrev fresh_keeper : StateKeeper (List Str)
fresh_keeper = record { states = []; root = codes "/r" }

abbrev old_keeper : StateKeeper (List Str)
old_keeper = record {
  states = (codes "g1", record { filter = codes "z" ∷ []; membership = false }) ∷ [];
  root = codes "/r";
}

g2_not_g1 : codes "g2" ≢ codes "g1"
unfolding str_eq
g2_not_g1 = λ e. cc ((str_eq_iff (codes "g2") (codes "g1")).1 e)

apply_all-Knows_example :
    All
      (λ u. All (λ t. Knows u.name t (apply_all (joined ∷ more ∷ []) fresh_keeper)) u.deltas)
      (joined ∷ more ∷ [])
apply_all-Knows_example = apply_all-Knows (joined ∷ more ∷ []) fresh_keeper

load-add_or_update_example :
    let (s', r, w') =
      add_or_update_state map_files (codes "g1") true (codes "a" ∷ []) old_keeper [] in
    (s' ≡ update_state (codes "g1") true (codes "a" ∷ []) old_keeper)
    × (codes "a" ∷ codes "z" ∷ [] ≡ filter_of (lookup (codes "g1") s'.states))
    × (load_state_keeper map_files (codes "/r") w' ≡ (ok s', w'))
unfolding add_or_update_state update_state save_states add_strings lookup insert str_eq
load-add_or_update_example =
    load-add_or_update map_files (codes "g1") true (codes "a" ∷ []) old_keeper _
      (codes "a" ∷ codes "z" ∷ []) [] _ refl
