-- ===== src/Peer/Delete.antt =====
-- Deletion of content, internal/ipfs/ipfs.go: DeleteFile; internal/ipfs/util.go: descendants.
pub mod Exactly
use ipfs_lite.Prelude.{
  Bool, true, false, List, [], ◌∷◌, Str, Error, Result, ok, err, panic, if◌then◌else◌,
}
use ipfs_lite.Prelude.Io.{Io, pure, fail, lift, gets, ◌>>=◌, ◌>>◌}
use ipfs_lite.Extern.Dag.{Dag}
use ipfs_lite.Replication.Types.{Link}

module _ (dg : Dag) where
  open dg use {World}

  -- `verboseCidError` of `descendants`
  unfoldable pub verbose_cid_error : Error → Error
  verbose_cid_error e = if dg.is_insecure e then Error.insecure_hash else e

  -- `verifyGetLinks` of `descendants`
  unfoldable pub verify_get_links : (Str → Result (List Link)) → Str → Result (List Link)
  verify_get_links get_links c = elim (dg.validate_cid c) [
    | ok u ↦ get_links c
    | err e ↦ err e
    | panic ↦ panic
  ]

  unfoldable pub descendants : (Str → Result (List Link)) → List Str → List Str → Result (List Str)
  unfolding verbose_cid_error verify_get_links
  descendants get_links found [] = ok found
  descendants get_links found (c ∷ roots) = elim (dg.walk (verify_get_links get_links) c found) [
    | ok found' ↦ descendants get_links found' roots
    | err e ↦ err (verbose_cid_error e)
    | panic ↦ panic
  ]

  -- `gcs.ForEach` with the removal of a block
  unfoldable pub delete_blocks : List Str → Io World (Unit {0})
  delete_blocks [] = pure tt
  delete_blocks (c ∷ cs) = dg.delete_block c >> delete_blocks cs

  -- `DeleteFile`; its `getLinks` takes a CID and asks for the links of `c` all the same.
  unfoldable pub delete_file : Str → Io World (Unit {0})
  unfolding descendants delete_blocks
  delete_file c = do
    found ← gets (dg.has_block c)
    if found then pure tt else fail Error.content_not_found
    doomed ← gets (λ w. descendants (λ _. dg.get_links c w) [] (c ∷ []))
    delete_blocks doomed
