-- ===== src/Security/RoundTrip.antt =====
-- What was encrypted is decrypted, and what was not may panic.
use ipfs_lite.Prelude.{
  ◌≡◌, refl, sym, ◌∙◌, ap, arith, [], ◌∷◌, ◌++◌, some, Str, Result, ok, err, panic, length,
  length-append, take, drop,
}
use ipfs_lite.Extern.Cipher.{Cipher}
use ipfs_lite.Security.{create_hash, block_or_nil, encrypt_content, split_nonce, decrypt_content}

take-append : (p s : Str) → take (length p) (p ++ s) ≡ p
take-append [] s = refl
take-append (c ∷ p) s = ap (λ t. c ∷ t) (take-append p s)

drop-append : (p s : Str) → drop (length p) (p ++ s) ≡ s
drop-append [] s = refl
drop-append (c ∷ p) s = drop-append p s

module _ (c : Cipher) where
  open c use {Block, Gcm, new_cipher, new_gcm, read_random, nonce_size, seal, open_sealed}

  split_nonce-seal :
      (g : Gcm) (nonce content : Str)
      → length nonce ≡ nonce_size g
      → split_nonce c g (nonce ++ seal g nonce content) ≡ ok content
  unfolding split_nonce
  split_nonce-seal g nonce content h =
      rw (sym h, take-append nonce (seal g nonce content), drop-append nonce (seal g nonce content))
        (ground (arith, length-append nonce (seal g nonce content), c.open-seal g nonce content h))

  -- Whatever passphrase and data EncryptContent succeeds on, DecryptContent with the same passphrase
  -- gives the data back.
  pub decrypt-encrypt_content :
      (content passphrase sealed : Str)
      → encrypt_content c content passphrase ≡ ok sealed
      → decrypt_content c sealed passphrase ≡ ok content
  unfolding encrypt_content decrypt_content block_or_nil
  decrypt-encrypt_content content passphrase sealed h =
      go (new_cipher (create_hash c passphrase)) refl
    where
      nonced :
          (b : Block) (g : Gcm)
          → new_cipher (create_hash c passphrase) ≡ ok b
          → new_gcm (some b) ≡ ok g
          → (r : Result Str) → read_random (nonce_size g) ≡ r
          → decrypt_content c sealed passphrase ≡ ok content
      nonced b g eb eg (ok nonce) e =
          let whole : nonce ++ seal g nonce content ≡ sealed = ground arith in
          let opened : split_nonce c g sealed ≡ ok content =
            ap (split_nonce c g) (sym whole)
            ∙ split_nonce-seal g nonce content (c.length-read_random (nonce_size g) nonce e) in
          ground (arith, opened)
      nonced b g eb eg (err x) e = absurd (ground arith)
      nonced b g eb eg panic e = absurd (ground arith)

      ready :
          (b : Block)
          → new_cipher (create_hash c passphrase) ≡ ok b
          → (r : Result Gcm) → new_gcm (some b) ≡ r
          → decrypt_content c sealed passphrase ≡ ok content
      ready b eb (ok g) e = nonced b g eb e (read_random (nonce_size g)) refl
      ready b eb (err x) e = absurd (ground arith)
      ready b eb panic e = absurd (ground arith)

      go :
          (r : Result Block)
          → new_cipher (create_hash c passphrase) ≡ r
          → decrypt_content c sealed passphrase ≡ ok content
      go (ok b) e = ready b e (new_gcm (some b)) refl
      go (err x) e = absurd (ground (arith, c.new_gcm-nil))
      go panic e = absurd (ground (arith, c.new_gcm-nil))
