-- ===== src/Replication/Manager/Listed.antt =====
-- What the tag index shows of a tag that was stored, and which downloads are started again.
use mathlib.Core.Path.{subst}
use ipfs_lite.Prelude.{
  Bool, has_prefix-append, Bool, true, false, ◌==◌, ==_iff, has_prefix-append, ◌≡◌, refl, sym, ◌∙◌,
  ap, inl, inr, arith, List, [], ◌∷◌, Str, Dict, Result, ok, err, panic, In, has_prefix,
}
use ipfs_lite.Extern.Crdt.{Crdt}
use ipfs_lite.Extern.Keys.{Keys}
use ipfs_lite.Extern.Json.{Json, decode, decode-marshal}
use ipfs_lite.Matrix.Content.{ContentMatrix}
use ipfs_lite.Replication.Types.{ContentMetatag, GroupMetadata}
use ipfs_lite.Replication.Group.{tag_content}
use ipfs_lite.Replication.Group.Content.{get-tag_content}
use ipfs_lite.Replication.Manager.{
  send, find_tag, keys_of, get_all_tags, hashes_of, get_all_cids, unfinished,
}

send-rest :
    (b : Bool) (f : Result ContentMetatag) (r : Result (List ContentMetatag))
    (sent : List ContentMetatag)
    → send b f r ≡ ok sent
    → (rest : List ContentMetatag) × (r ≡ ok rest) × ((x : ContentMetatag) → In x rest → In x sent)
unfolding send
send-rest false f (ok rest) sent h = (rest, refl, λ x. subst (In x) (ground arith))
send-rest false f (err e) sent h = absurd (ground arith)
send-rest false f panic sent h = absurd (ground arith)
send-rest true (ok meta) (ok rest) sent h =
    (rest, refl, λ x i. let e : meta ∷ rest ≡ sent = ground arith in subst (In x) e (inr i))
send-rest true (ok meta) (err e) sent h = absurd (ground arith)
send-rest true (ok meta) panic sent h = absurd (ground arith)
send-rest true (err e) (ok rest) sent h = (rest, refl, λ x. subst (In x) (ground arith))
send-rest true (err e) (err e') sent h = absurd (ground arith)
send-rest true (err e) panic sent h = absurd (ground arith)
send-rest true panic r sent h = absurd (ground arith)

send-here :
    (meta : ContentMetatag) (r : Result (List ContentMetatag)) (sent : List ContentMetatag)
    → send true (ok meta) r ≡ ok sent
    → In meta sent
unfolding send
send-here meta (ok rest) sent h =
    let e : meta ∷ rest ≡ sent = ground arith in subst (In meta) e (inl refl)
send-here meta (err e) sent h = absurd (ground arith)
send-here meta panic sent h = absurd (ground arith)

module _ (db : Crdt) (ks : Keys) ⦃gj : Json GroupMetadata⦄ ⦃mj : Json ContentMetatag⦄ where
  open db use {World, new_key, get, put, query}

  In-keys_of : (k v : Str) (es : List (Str × Str)) → In (k, v) es → In k (keys_of db es)
  unfolding keys_of
  In-keys_of k v [] i = elim i [ ]
  In-keys_of k v ((k', v') ∷ es) (inl same) = inl (ap (λ (p : Str × Str). p.0) same)
  In-keys_of k v ((k', v') ∷ es) (inr later) = inr (In-keys_of k v es later)

  In-hashes_of :
      (k v : Str) (m : ContentMetatag) (es : List (Str × Str))
      → decode v ≡ ok m
      → In (k, v) es
      → In m.hash (hashes_of db es)
  unfolding hashes_of
  In-hashes_of k v m [] e i = elim i [ ]
  In-hashes_of k v m ((k', v') ∷ es) e (inl same) =
      let d : decode v' ≡ ok m = ap (λ (p : Str × Str). decode p.1) (sym same) ∙ e in
      rw (d, hashes_of) (inl refl)
  In-hashes_of k v m ((k', v') ∷ es) e (inr later) =
      there (decode v') (In-hashes_of k v m es e later)
    where
      there :
          (r : Result ContentMetatag)
          → In m.hash (hashes_of db es)
          → In m.hash (elim r [
            | ok x ↦ x.hash ∷ hashes_of db es
            | err _ ↦ hashes_of db es
            | panic ↦ hashes_of db es
          ])
      there (ok x) i = inr i
      there (err x) i = i
      there panic i = i

  -- After a tag was stored under a key that starts with a slash, FindTag returns its metadata, and
  -- if GetAllTags and GetAllCids succeed then the first holds the key and the second the content's
  -- identifier.
  pub tagged_listed :
      (tag rest : Str) (meta : ContentMetatag) (w w' : World) (tags cids : List Str)
      → new_key tag ≡ b'/' ∷ rest
      → tag_content db ks tag meta w ≡ (ok tt, w')
      → get_all_tags db w' ≡ ok tags
      → get_all_cids db w' ≡ ok cids
      → (find_tag db tag w' ≡ ok meta) × In (new_key tag) tags × In meta.hash cids
  unfolding find_tag get_all_tags get_all_cids
  tagged_listed tag rest meta w w' tags cids rooted h ht hc =
      let (b, eb, gb, same) = get-tag_content db ks tag meta w w' h in
      let d = decode-marshal meta b eb in go b gb d (query [] w') refl
    where
      go :
          (b : Str)
          → get (new_key tag) w' ≡ ok b
          → decode b ≡ ok meta
          → (q : Result (List (Str × Str))) → query [] w' ≡ q
          → (find_tag db tag w' ≡ ok meta) × In (new_key tag) tags × In meta.hash cids
      go b gb d (ok es) e =
          let i = db.query-get [] (new_key tag) b w' es e gb (rw rooted under_root) in
          (
            ground (arith, d, gb),
            subst (In (new_key tag)) (ground arith) (In-keys_of (new_key tag) b es i),
            subst (In meta.hash) (ground arith) (In-hashes_of (new_key tag) b meta es d i),
          )
        where
          under_root : has_prefix (b'/' ∷ rest) (b'/' ∷ []) ≡ true
          under_root = has_prefix-append (b'/' ∷ []) rest
      go b gb d (err x) e = absurd (ground arith)
      go b gb d panic e = absurd (ground arith)

  -- A download that has not finished is started again: when StartUnfinishedDownload returns, it has
  -- sent the metadata of every entry of the matrix without a finishing time whose tag is found.
  pub unfinished_sent :
      {F : Type 0} (hash : Str) (c : ContentMatrix F) (m : Dict (ContentMatrix F))
      (meta : ContentMetatag) (w : World) (sent : List ContentMetatag)
      → In (hash, c) m
      → c.download_finished_at ≡ 0
      → find_tag db c.tag w ≡ ok meta
      → unfinished db m w ≡ ok sent
      → In meta sent
  unfolding unfinished
  unfinished_sent hash c [] meta w sent i z found h = elim i [ ]
  unfinished_sent hash c ((j, d) ∷ m) meta w sent (inl same) z found h =
      send-here meta (unfinished db m w) sent (
        subst (λ b. send b (ok meta) (unfinished db m w) ≡ ok sent) running
          (subst (λ f. send (d.download_finished_at == 0) f (unfinished db m w) ≡ ok sent) found'
            h))
    where
      same_entry : d ≡ c
      same_entry = sym (ap (λ (p : Str × ContentMatrix _). p.1) same)

      found' : find_tag db d.tag w ≡ ok meta
      found' = ap (λ (x : ContentMatrix _). find_tag db x.tag w) same_entry ∙ found

      running : (d.download_finished_at == 0) ≡ true
      running =
          (==_iff d.download_finished_at 0).1
            (ap (λ (x : ContentMatrix _). x.download_finished_at) same_entry ∙ z)
  unfinished_sent hash c ((j, d) ∷ m) meta w sent (inr later) z found h =
      let (rest, e, keep) =
        send-rest (d.download_finished_at == 0) (find_tag db d.tag w) (unfinished db m w) sent h in
      keep meta (unfinished_sent hash c m meta w rest later z found e)
