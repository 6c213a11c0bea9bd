-- ===== src/Mobile/Api/RoundTrip.antt =====
-- Content that the application adds is what it gets, encrypted or not.
use ipfs_lite.Prelude.{
  ◌≡◌, refl, ap, inl, inr, arith, true, false, Option, none, some, [], Str, str_eq, Int64, Result,
  ok, err, panic, ◌⊎◌, Bool-cases, if_cases, lookup, lookup-insert_self, str_eq_iff,
}
use ipfs_lite.Extern.Bloom.{Bloom}
use ipfs_lite.Extern.Cipher.{Cipher}
use ipfs_lite.Extern.Crdt.{Crdt}
use ipfs_lite.Extern.Keys.{Keys}
use ipfs_lite.Extern.Json.{Json}
use ipfs_lite.Mobile.Api.Running.{Hop, advertise}
use ipfs_lite.Mobile.Api.Running.{crdt_status}
use ipfs_lite.Mobile.Discovery.{DiscoveryService, or_empty, add_advertising_info}
use ipfs_lite.Mobile.Api.{encoded, decoded, content_info, World, added, on_node, api_add, api_get}
use ipfs_lite.Replication.Types.{ContentMetatag, GroupMetadata}
use ipfs_lite.Replication.Hooks.{Local}
use ipfs_lite.Security.{encrypt_content}
use ipfs_lite.Security.RoundTrip.{decrypt-encrypt_content}
use ipfs_lite.Store as Store
use ipfs_lite.Store.{Info}
use ipfs_lite.Store.Content.{Contents}
use ipfs_lite.Store.Laws as Laws

-- What was encoded with a passphrase, or with none, is decoded with the same.
pub decoded-encoded :
    (c : Cipher) (mime : Str → Str) (tag content passphrase bytes : Str)
    → encoded c content passphrase ≡ ok bytes
    → decoded c passphrase (bytes, content_info mime tag content passphrase) ≡ ok content
unfolding encoded decoded
decoded-encoded c mime tag content passphrase bytes h = elim (Bool-cases (str_eq passphrase [])) [
  | inl plain ↦ ground arith
  | inr secret ↦
      let sealed : encrypt_content c content passphrase ≡ ok bytes = ground arith in
      ground (arith, decrypt-encrypt_content c content passphrase bytes sealed)
]

advertised :
    (topic info : Str) (d : DiscoveryService)
    → or_empty (lookup topic (add_advertising_info topic info d).advertising_info) ≡ info
unfolding add_advertising_info
advertised topic info d =
    if_cases (λ (x : DiscoveryService). or_empty (lookup topic x.advertising_info) ≡ info)
      (str_eq (or_empty (lookup topic d.advertising_info)) info)
      (λ same. (str_eq_iff (or_empty (lookup topic d.advertising_info)) info).0 same)
      (λ new. ap or_empty (lookup-insert_self topic info d.advertising_info))

module _ (db : Crdt) (ks : Keys) (ct : Contents) (c : Cipher) {Files Filter : Type 0}
    ⦃bl : Bloom Filter⦄ ⦃gj : Json GroupMetadata⦄ ⦃mj : Json ContentMetatag⦄ (host : Str)
    (key : ks.PrivKey) (mime : Str → Str) (text : Filter → Result Str)
    (run_hooks : Local Files Filter → Local Files Filter) where
  -- The end of an addition succeeds only where the store has; it keeps what the store did, and then
  -- the discovery service advertises the text of the filter.
  added_lem :
      (filter : Hop Files Filter → Result Filter) (h : Hop Files Filter) (r : Result Str)
      (b b' : ct.World × db.World) (o : Option (Hop Files Filter))
      → added db ks ct c host key mime text run_hooks filter h (r, b) ≡ (ok tt, (o, b'))
      → (id : Str) × (h' : Hop Files Filter) × (f : Filter) × (bf : Str) × (r ≡ ok id)
        × (b ≡ b')
        × (o ≡ some h')
        × (h'.node_started ≡ h.node_started)
        × (h'.local ≡ run_hooks h.local)
        × (filter (record h { local = run_hooks h.local }) ≡ ok f)
        × (text f ≡ ok bf)
        × (or_empty (lookup crdt_status h'.discovery.advertising_info) ≡ bf)
  unfolding added advertise
  added_lem filter h (ok id) b b' o e = go (filter (record h { local = run_hooks h.local })) refl
    where
      shown :
          (f : Filter)
          → filter (record h { local = run_hooks h.local }) ≡ ok f
          → (t : Result Str) → text f ≡ t
          → (id' : Str) × (h' : Hop Files Filter) × (f : Filter) × (bf : Str) × (◌≡◌
              {A = Result Str}
              (ok id)
              (ok id'))
            × (b ≡ b')
            × (o ≡ some h')
            × (h'.node_started ≡ h.node_started)
            × (h'.local ≡ run_hooks h.local)
            × (filter (record h { local = run_hooks h.local }) ≡ ok f)
            × (text f ≡ ok bf)
            × (or_empty (lookup crdt_status h'.discovery.advertising_info) ≡ bf)
      shown f ef (ok bf) et =
          let h' : Hop Files Filter = record h {
            local = run_hooks h.local;
            discovery = add_advertising_info crdt_status bf h.discovery;
          } in
          (
            id,
            h',
            f,
            bf,
            refl,
            ground arith,
            ground arith,
            refl,
            refl,
            ef,
            et,
            advertised crdt_status bf h.discovery,
          )
      shown f ef (err x) et = absurd (ground arith)
      shown f ef panic et = absurd (ground arith)

      go :
          (q : Result Filter)
          → filter (record h { local = run_hooks h.local }) ≡ q
          → (id' : Str) × (h' : Hop Files Filter) × (f : Filter) × (bf : Str) × (◌≡◌
              {A = Result Str}
              (ok id)
              (ok id'))
            × (b ≡ b')
            × (o ≡ some h')
            × (h'.node_started ≡ h.node_started)
            × (h'.local ≡ run_hooks h.local)
            × (filter (record h { local = run_hooks h.local }) ≡ ok f)
            × (text f ≡ ok bf)
            × (or_empty (lookup crdt_status h'.discovery.advertising_info) ≡ bf)
      go (ok f) e' = shown f e' (text f) refl
      go (err x) e' = absurd (ground arith)
      go panic e' = absurd (ground arith)
  added_lem filter h (err x) b b' o e = absurd (ground arith)
  added_lem filter h panic b b' o e = absurd (ground arith)

  -- When Add succeeds, Get with the same tag and the same passphrase, or none in both, returns the
  -- content, and the discovery service advertises the text of the filter that the node has then.
  pub api_get-api_add :
      (tag content passphrase : Str) (now : Int64)
      (w w' : World db ks ct c host key mime text run_hooks)
      → api_add db ks ct c host key mime text run_hooks tag content passphrase now w ≡ (ok tt, w')
      → (h : Hop Files Filter) × (bf : Str) × (api_get db ks ct c host key mime text run_hooks tag
            passphrase w'
          ≡ ok content)
        × (w'.0 ≡ some h)
        × (text h.local.state ≡ ok bf)
        × (or_empty (lookup crdt_status h.discovery.advertising_info) ≡ bf)
  unfolding api_add api_get on_node
  api_get-api_add tag content passphrase now (none, b) w' h = absurd (ground arith)
  api_get-api_add tag content passphrase now (some h0, b) (o, b') h =
      go (encoded c content passphrase) refl (Bool-cases h0.node_started)
    where
      info : Info
      info = content_info mime tag content passphrase

      stored : Str → Result Str × (ct.World × db.World)
      stored bytes = Store.add db ks ct host key bytes info now b

      go :
          (r : Result Str)
          → encoded c content passphrase ≡ r
          → (h0.node_started ≡ true) ⊎ (h0.node_started ≡ false)
          → (h' : Hop Files Filter) × (bf : Str) × (api_get db ks ct c host key mime text run_hooks
                tag passphrase
                (o, b')
              ≡ ok content)
            × (o ≡ some h')
            × (text h'.local.state ≡ ok bf)
            × (or_empty (lookup crdt_status h'.discovery.advertising_info) ≡ bf)
      go (ok bytes) e (inl on) =
          let ended : added db ks ct c host key mime text run_hooks (λ h'. ok h'.local.state) h0
                ((stored bytes).0, (stored bytes).1)
              ≡ (ok tt, (o, b')) =
            ground arith in
          let (id, h', f, bf, er, eb, eo, es, el, ef, et, ea) =
            added_lem (λ h'. ok h'.local.state) h0 (stored bytes).0 (stored bytes).1 b' o ended in
          let got = Laws.get-add db ks ct host key bytes info now b b' id (ground arith) in
          (
            h',
            bf,
            ground (arith, got, decoded-encoded c mime tag content passphrase bytes e),
            eo,
            ground arith,
            ea,
          )
      go (ok bytes) e (inr off) = absurd (ground arith)
      go (err x) e on = absurd (ground arith)
      go panic e on = absurd (ground arith)
