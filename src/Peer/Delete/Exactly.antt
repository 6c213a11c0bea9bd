-- ===== src/Peer/Delete/Exactly.antt =====
-- Deleting content removes its root and the direct links of the root, and nothing else.
use ipfs_lite.Prelude.{
  ◌≡◌, refl, ◌≢◌, ◌∙◌, ap, inl, inr, ◌⊎◌, arith, Bool, true, false, List, [], ◌∷◌, Str, str_eq,
  str_eq_iff, Result, ok, err, panic, In, Bool-cases,
}
use ipfs_lite.Prelude.Io.{bind-ok}
use ipfs_lite.Extern.Dag.{Dag}
use ipfs_lite.Replication.Types.{Link}
use ipfs_lite.Peer.Delete.{verify_get_links, descendants, delete_blocks, delete_file}

module _ (dg : Dag) where
  open dg use {World}

  -- A block is that of the root, or of one of its links.
  abbrev pub RootOrLink : Str → List Link → Str → Type 0
  RootOrLink c links j =
      (dg.block_of j ≡ dg.block_of c)
      ⊎ ((l : Link) × In l links × (dg.block_of j ≡ dg.block_of l.hash))

  deleted_gone :
      (j c : Str) (w w' : World)
      → dg.is_inline (dg.block_of j) ≡ false
      → dg.block_of j ≡ dg.block_of c
      → dg.delete_block c w ≡ (ok tt, w')
      → dg.has_block j w' ≡ ok false
  deleted_gone j c w w' plain e h = dg.has-same j c w' e ∙ dg.has-delete c w w' (ground arith) h

  -- What stays absent.
  absent_stays :
      (j c : Str) (w w' : World)
      → dg.is_inline (dg.block_of j) ≡ false
      → dg.delete_block c w ≡ (ok tt, w')
      → dg.has_block j w ≡ ok false
      → dg.has_block j w' ≡ ok false
  absent_stays j c w w' plain h gone = elim (Bool-cases (str_eq (dg.block_of j) (dg.block_of c))) [
    | inl same ↦ deleted_gone j c w w' plain ((str_eq_iff (dg.block_of j) (dg.block_of c)).0 same) h
    | inr other ↦
        let ne : dg.block_of j ≢ dg.block_of c =
          λ e. ground (arith, (str_eq_iff (dg.block_of j) (dg.block_of c)).1 e) in
        let kept = dg.has-delete_ne j c w ne in ground (arith, kept)
  ]

  delete_blocks_absent :
      (j : Str) (cs : List Str) (w w' : World)
      → dg.is_inline (dg.block_of j) ≡ false
      → delete_blocks dg cs w ≡ (ok tt, w')
      → dg.has_block j w ≡ ok false
      → dg.has_block j w' ≡ ok false
  unfolding delete_blocks
  delete_blocks_absent j [] w w' plain h gone = ground arith
  delete_blocks_absent j (c ∷ cs) w w' plain h gone =
      let (u, w1, e, h') = bind-ok (dg.delete_block c) (λ _. delete_blocks dg cs) w h in
      delete_blocks_absent j cs w1 w' plain h' (absent_stays j c w w1 plain (ground arith) gone)

  delete_blocks-In :
      (j d : Str) (cs : List Str) (w w' : World)
      → dg.is_inline (dg.block_of j) ≡ false
      → dg.block_of j ≡ dg.block_of d
      → delete_blocks dg cs w ≡ (ok tt, w')
      → In d cs
      → dg.has_block j w' ≡ ok false
  unfolding delete_blocks
  delete_blocks-In j d [] w w' plain same h i = absurd i
  delete_blocks-In j d (c ∷ cs) w w' plain same h (inl e) =
      let (u, w1, e1, h') = bind-ok (dg.delete_block c) (λ _. delete_blocks dg cs) w h in
      delete_blocks_absent j cs w1 w' plain h'
        (deleted_gone j c w w1 plain (same ∙ ap dg.block_of e) (ground arith))
  delete_blocks-In j d (c ∷ cs) w w' plain same h (inr i) =
      let (u, w1, e1, h') = bind-ok (dg.delete_block c) (λ _. delete_blocks dg cs) w h in
      delete_blocks-In j d cs w1 w' plain same h' i

  delete_blocks_other :
      (j : Str) (cs : List Str) (w w' : World)
      → delete_blocks dg cs w ≡ (ok tt, w')
      → ((d : Str) → In d cs → dg.block_of j ≢ dg.block_of d)
      → dg.has_block j w' ≡ dg.has_block j w
  unfolding delete_blocks
  delete_blocks_other j [] w w' h out = ground arith
  delete_blocks_other j (c ∷ cs) w w' h out =
      let (u, w1, e1, h') = bind-ok (dg.delete_block c) (λ _. delete_blocks dg cs) w h in
      let later = delete_blocks_other j cs w1 w' h' (λ d i. out d (inr i)) in
      let kept = dg.has-delete_ne j c w (out c (inl refl)) in ground (arith, later, kept)

  verified :
      (f : Str → Result (List Link)) (j : Str) (links : List Link)
      → verify_get_links dg f j ≡ ok links
      → f j ≡ ok links
  unfolding verify_get_links
  verified f j links h = go (dg.validate_cid j) refl
    where
      go : (r : Result (Unit {0})) → dg.validate_cid j ≡ r → f j ≡ ok links
      go (ok u) e = ground arith
      go (err x) e = absurd (ground arith)
      go panic e = absurd (ground arith)

  -- The set that `DeleteFile` computes: the root and its links.
  doomed_iff :
      (c : Str) (w : World) (doomed : List Str)
      → dg.walk (verify_get_links dg (λ _. dg.get_links c w)) c [] ≡ ok doomed
      → (links : List Link) × (dg.get_links c w ≡ ok links)
        × In c doomed
        × ((l : Link) → In l links → In l.hash doomed)
        × ((d : Str) → In d doomed → RootOrLink c links d)
  doomed_iff c w doomed h =
      let f = verify_get_links dg (λ _. dg.get_links c w) in
      let root = dg.walk-root f c [] doomed h in
      let (links, e, closed) = dg.walk-closed f c doomed c h root in
      let got = verified (λ _. dg.get_links c w) c links e in
      (
        links,
        got,
        root,
        closed,
        dg.walk-only (RootOrLink c links) f c doomed h (inl refl) (λ j found l r e' i.
            let again = verified (λ _. dg.get_links c w) j found e' in inr (l, ground arith, refl)),
      )

  -- The blocks of the root and of its links are gone, and the others are as they were.
  abbrev Removed : Str → World → World → Type 0
  Removed c w w' =
      (links : List Link) × (dg.has_block c w ≡ ok true)
      × (dg.get_links c w ≡ ok links)
      × ((j : Str)
          → dg.is_inline (dg.block_of j) ≡ false
          → RootOrLink c links j
          → dg.has_block j w' ≡ ok false)
      × ((j : Str) → (RootOrLink c links j → ⊥) → dg.has_block j w' ≡ dg.has_block j w)

  -- When DeleteFile succeeds, the content was there, and exactly the blocks of its root and of the
  -- root's direct links are gone, but for those that an identity hash holds: every other block is as
  -- it was, also one that only such a link links to.
  pub delete_file_exactly :
      (c : Str) (w w' : World)
      → delete_file dg c w ≡ (ok tt, w')
      → (links : List Link) × (dg.has_block c w ≡ ok true)
        × (dg.get_links c w ≡ ok links)
        × ((j : Str)
            → dg.is_inline (dg.block_of j) ≡ false
            → RootOrLink c links j
            → dg.has_block j w' ≡ ok false)
        × ((j : Str) → (RootOrLink c links j → ⊥) → dg.has_block j w' ≡ dg.has_block j w)
  unfolding delete_file descendants
  delete_file_exactly c w w' h =
      go (dg.has_block c w) refl (dg.walk (verify_get_links dg (λ _. dg.get_links c w)) c []) refl
    where
      all :
          (doomed : List Str)
          → dg.has_block c w ≡ ok true
          → dg.walk (verify_get_links dg (λ _. dg.get_links c w)) c [] ≡ ok doomed
          → delete_blocks dg doomed w ≡ (ok tt, w')
          → Removed c w w'
      all doomed e e' deleted =
          let (links, got, root, linked, only) = doomed_iff c w doomed e' in
          (
            links,
            e,
            got,
            λ j plain r. elim r [
              | inl same ↦ delete_blocks-In j c doomed w w' plain same deleted root
              | inr (l, i, same) ↦
                  delete_blocks-In j l.hash doomed w w' plain same deleted (linked l i)
            ],
            λ j n. delete_blocks_other j doomed w w' deleted (λ d i same. n (elim (only d i) [
              | inl root' ↦ inl (same ∙ root')
              | inr (l, i', link) ↦ inr (l, i', same ∙ link)
            ])),
          )

      go :
          (r : Result Bool)
          → dg.has_block c w ≡ r
          → (s : Result (List Str)) → dg.walk (verify_get_links dg (λ _. dg.get_links c w)) c [] ≡ s
          → Removed c w w'
      go (ok true) e (ok doomed) e' = all doomed e e' (ground arith)
      go (ok true) e (err x) e' = absurd (ground arith)
      go (ok true) e panic e' = absurd (ground arith)
      go (ok false) e s e' = absurd (ground arith)
      go (err x) e s e' = absurd (ground arith)
      go panic e s e' = absurd (ground arith)
