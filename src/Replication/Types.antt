-- ===== src/Replication/Types.antt =====
-- The values that the manager stores, internal/replication: ContentMetatag and GroupMetadata.
use ipfs_lite.Prelude.{Bool, List, Str, Int64}

-- `format.Link` of go-ipld-format, which is only carried.
pub record Link : Type 0 where
  pub name : Str
  pub size : Int64
  pub hash : Str

-- A CID and a peer ID are their bytes.
pub record ContentMetatag : Type 0 where
  pub tag : Str
  pub size : Int64
  pub content_type : Str
  pub name : Str
  pub hash : Str
  pub timestamp : Int64
  pub owner : Str
  pub is_encrypted : Bool
  pub group : Str
  pub links : List Link

pub record GroupMetadata : Type 0 where
  pub name : Str
  pub owner_id : Str
  pub owner_public_key : Str
  pub group_id : Str
  pub is_open : Bool
