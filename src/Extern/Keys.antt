-- ===== src/Extern/Keys.antt =====
-- Peer identities and keys: go-libp2p's core/peer and core/crypto, go-multihash, encoding/base64.
use ipfs_lite.Prelude.{◌≡◌, Str, Int64, Result}

pub record Keys : Type 1 where
  pub PrivKey : Type 0
  pub PubKey : Type 0
  -- `GetPublic`
  pub public : PrivKey → PubKey
  -- `Raw`, which panics on a nil key
  pub raw : PubKey → Result Str
  -- `base64.StdEncoding.EncodeToString`
  pub base64 : Str → Str
  pub base64_injective : (a b : Str) → base64 a ≡ base64 b → a ≡ b
  -- `peer.ID.String`
  pub id_string : Str → Str
  -- `mh.Sum(b, mh.SHA2_256, -1)`
  pub sum_sha256 : Str → Result Str
  -- `fmt.Sprintf("%d", n)`
  pub format_int : Int64 → Str
