-- ===== src/Extern/Bloom.antt =====
-- github.com/bits-and-blooms/bloom: a filter of strings with no false negatives.
use ipfs_lite.Prelude.{ℕ, ◌≡◌, true, Bool, Str}

pub record Bloom (Filter : Type 0) : Type 0 where
  -- `bloom.New(m, k)`
  pub new : ℕ → ℕ → Filter
  pub add_string : Filter → Str → Filter
  pub test_string : Filter → Str → Bool
  pub test-add : (f : Filter) (s : Str) → test_string (add_string f s) s ≡ true
  pub test-add_mono :
      (f : Filter) (s t : Str) → test_string f t ≡ true → test_string (add_string f s) t ≡ true
