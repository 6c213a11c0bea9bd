-- ===== src/Security.antt =====
-- The encryption of contents with a passphrase, internal/security/security.go.
pub mod RoundTrip
use ipfs_lite.Prelude.{
  Bool, true, false, Option, none, some, ◌++◌, Str, Result, ok, err, panic, length, take, drop, leb,
  ◌>>=◌, if◌then◌else◌,
}
use ipfs_lite.Extern.Cipher.{Cipher}

module _ (c : Cipher) where
  open c use {Block, Gcm, md5_hex, new_cipher, new_gcm, read_random, nonce_size, seal, open_sealed}

  -- `createHash`
  unfoldable pub create_hash : Str → Str
  create_hash key = md5_hex key

  -- The block that `EncryptContent` goes on with: nil after an error, which it drops.
  unfoldable pub block_or_nil : Str → Option Block
  block_or_nil passphrase = elim (new_cipher (create_hash passphrase)) [
    | ok b ↦ some b
    | err _ ↦ none
    | panic ↦ none
  ]

  -- `EncryptContent`: the nonce stands before the sealed data.
  unfoldable pub encrypt_content : Str → Str → Result Str
  encrypt_content content passphrase = new_gcm (block_or_nil passphrase) >>= λ gcm.
      read_random (nonce_size gcm) >>= λ nonce. ok (nonce ++ seal gcm nonce content)

  -- `data[:n]` and `data[n:]`, a panic where the data are shorter.
  unfoldable pub split_nonce : Gcm → Str → Result Str
  split_nonce gcm content =
      if leb (nonce_size gcm) (length content)
      then open_sealed gcm (take (nonce_size gcm) content) (drop (nonce_size gcm) content)
      else panic

  -- `DecryptContent`
  unfoldable pub decrypt_content : Str → Str → Result Str
  unfolding split_nonce
  decrypt_content content passphrase = new_cipher (create_hash passphrase) >>= λ block.
      new_gcm (some block) >>= λ gcm. split_nonce gcm content
