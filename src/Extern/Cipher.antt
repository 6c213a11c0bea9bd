-- ===== src/Extern/Cipher.antt =====
-- crypto/md5 with encoding/hex, crypto/aes, crypto/cipher and crypto/rand.
use ipfs_lite.Prelude.{ℕ, ◌≡◌, Option, none, Str, Result, ok, panic, length}

pub record Cipher : Type 1 where
  pub Block : Type 0
  pub Gcm : Type 0
  -- the hexadecimal digits of `md5.Sum`
  pub md5_hex : Str → Str
  -- `aes.NewCipher`, and `cipher.NewGCM` of a block that may be nil, which it dereferences
  pub new_cipher : Str → Result Block
  pub new_gcm : Option Block → Result Gcm
  pub new_gcm-nil : new_gcm none ≡ panic
  -- `io.ReadFull(rand.Reader, b)` of so many bytes
  pub read_random : ℕ → Result Str
  pub length-read_random : (n : ℕ) (b : Str) → read_random n ≡ ok b → length b ≡ n
  pub nonce_size : Gcm → ℕ
  -- `Seal` without its destination, and `Open`
  pub seal : Gcm → Str → Str → Str
  pub open_sealed : Gcm → Str → Str → Result Str
  pub open-seal :
      (g : Gcm) (nonce content : Str)
      → length nonce ≡ nonce_size g
      → open_sealed g nonce (seal g nonce content) ≡ ok content
