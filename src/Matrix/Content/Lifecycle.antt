-- ===== src/Matrix/Content/Lifecycle.antt =====
-- A download from its announcement to its end, and what each call leaves alone.
use ipfs_lite.Prelude.{
  ◌≡◌, ◌≢◌, inl, inr, [], none, arith, Str, Dict, lookup, insert, lookup-insert_ne,
  lookup-insert_self, insert-insert, Int64, ok, ◌>>=◌, Option-cases,
}
use ipfs_lite.Extern.Floats.{Float32}
use ipfs_lite.Matrix.Content.{
  ContentMatrix, size_in_mb, time_consumed, new_entry, new_content, with_entry, start_entry,
  finish_entry, content_download_started, content_download_finished,
}

module _ {F : Type 0} ⦃fl : Float32 F⦄ where
  with_entry-insert :
      (hash : Str) (f : ContentMatrix F → ContentMatrix F) (c : ContentMatrix F)
      (m : Dict (ContentMatrix F))
      → with_entry hash f (insert hash c m) ≡ ok (insert hash (f c) m)
  unfolding with_entry
  with_entry-insert hash f c m =
      ground (arith, lookup-insert_self hash c m, insert-insert hash (f c) c m)

  -- Content that is announced, started and finished. A hash without an entry gets one; its entry
  -- ends with the tag, the size and both times, with the size in MiB over the seconds taken (at
  -- least one) as its speed, and with no providers. No call panics, and no other entry changes.
  pub download_recorded :
      (hash tag : Str) (size started finished : Int64) (m : Dict (ContentMatrix F))
      → lookup hash m ≡ none
      → (content_download_started started tag hash size (new_content hash m)
          >>= content_download_finished finished hash)
        ≡ ok (
            insert hash
              (record {
                tag = tag;
                size = size;
                avg_speed = fl.div (size_in_mb size) (fl.of_int64 (time_consumed finished started));
                download_started_at = started;
                download_finished_at = finished;
                provided_by = [];
              })
              m)
  unfolding new_content content_download_started content_download_finished start_entry finish_entry
  download_recorded hash tag size started finished m absent =
      rw (absent, new_content, with_entry-insert hash (start_entry started tag size) new_entry m)
        (with_entry-insert hash (finish_entry finished) _ m)

  -- A call that writes the entry of one hash finds every other hash as before, whether it ends a
  -- download, starts one or adds a provider.
  pub entry_others :
      (hash j : Str) (f : ContentMatrix F → ContentMatrix F) (m m' : Dict (ContentMatrix F))
      → j ≢ hash
      → with_entry hash f m ≡ ok m'
      → lookup j m' ≡ lookup j m
  unfolding with_entry
  entry_others hash j f m m' ne h = elim (Option-cases (lookup hash m)) [
    | inl absent ↦ ground arith
    | inr (c, found) ↦ ground (arith, lookup-insert_ne hash j (f c) m)
  ]
