-- ===== src/Peer/Network/Found.antt =====
-- Whom a node finds and is connected to.
use mathlib.Core.Path.{subst}
use ipfs_lite.Prelude.{
  ◌≡◌, refl, ◌≢◌, sym, ◌∙◌, inl, inr, ◌⊎◌, arith, Bool, true, false, List, [], ◌∷◌, ◌++◌, Str,
  str_eq, str_eq_iff, Error, Result, ok, err, panic, In, Bool-cases,
}
use ipfs_lite.Extern.Host.{AddrInfo, Host}
use ipfs_lite.Peer.Network.{
  connection_manager_tag, connection_manager_weight, Arrival, provider, timeout, cancelled, connect,
  find_providers,
}

module _ (hs : Host) where
  open hs use {World}

  made_connected :
      (pi : AddrInfo) (w w' : World)
      → connect hs true pi w ≡ (ok tt, w')
      → hs.is_connected pi.id w ≡ false
      → hs.is_connected pi.id w' ≡ true
  unfolding connect
  made_connected pi w w' h off = go (hs.connect pi w).0 refl
    where
      go : (r : Result (Unit {0})) → (hs.connect pi w).0 ≡ r → hs.is_connected pi.id w' ≡ true
      go (ok u) e =
          let made = hs.connect-connected pi w (hs.connect pi w).1 (ground arith) in
          let tagged =
            hs.tag_peer-connected pi.id connection_manager_tag connection_manager_weight pi.id
              (hs.connect pi w).1 in
          ground (arith, made, tagged)
      go (err x) e = absurd (ground arith)
      go panic e = absurd (ground arith)

  -- When Connect succeeds, the peer is connected; a peer that was connected is left alone; and a node
  -- without a host gives an error and does nothing.
  pub connect_connected :
      (has_host : Bool) (pi : AddrInfo) (w : World)
      → ((w' : World) → connect hs has_host pi w ≡ (ok tt, w') → hs.is_connected pi.id w' ≡ true)
        × (hs.is_connected pi.id w ≡ true → (connect hs has_host pi w).1 ≡ w)
        × (connect hs false pi w ≡ (err Error.peer_offline, w))
  unfolding connect
  connect_connected true pi w = (
    λ w' h. elim (Bool-cases (hs.is_connected pi.id w)) [
      | inl on ↦ ground arith
      | inr off ↦ made_connected pi w w' h off
    ],
    λ on. ground arith,
    refl,
  )
  connect_connected false pi w = (λ w' h. absurd (ground arith), λ on. refl, refl)

  -- A peer that was announced.
  abbrev pub Announced : Str → List Arrival → Type 0
  Announced id as' = (pi : AddrInfo) × In (provider pi) as' × (pi.id ≡ id)

  later : (id : Str) (a : Arrival) (as' : List Arrival) → Announced id as' → Announced id (a ∷ as')
  later id a as' (pi, i, e) = (pi, inr i, e)

  In-snoc : (id x : Str) (xs : List Str) → In id (xs ++ (x ∷ [])) → In id xs ⊎ (id ≡ x)
  In-snoc id x [] (inl e) = inr e
  In-snoc id x [] (inr i) = absurd i
  In-snoc id x (y ∷ xs) (inl e) = inl (inl e)
  In-snoc id x (y ∷ xs) (inr i) = elim (In-snoc id x xs i) [ inl j ↦ inl (inr j) | inr e ↦ inr e ]

  find_providers_lem :
      (as' : List Arrival) (found : List Str) (w : World) (id : Str)
      → In id (find_providers hs as' found w).0
      → In id found ⊎ (Announced id as' × (id ≢ hs.self))
  unfolding find_providers
  find_providers_lem [] found w id i = inl i
  find_providers_lem (timeout ∷ as') found w id i = inl i
  find_providers_lem (cancelled ∷ as') found w id i = inl i
  find_providers_lem (provider pi ∷ as') found w id i =
      go (λ w'. find_providers_lem as' found w' id)
        (λ w'. find_providers_lem as' (found ++ (pi.id ∷ [])) w' id)
    where
      Goal : Type 0
      Goal = In id found ⊎ (Announced id (provider pi ∷ as') × (id ≢ hs.self))

      moved : (o : List Str × World) → find_providers hs (provider pi ∷ as') found w ≡ o → In id o.0
      moved o e = subst (λ x. In id x.0) e i

      widen : In id found ⊎ (Announced id as' × (id ≢ hs.self)) → Goal
      widen (inl j) = inl j
      widen (inr (a, ne)) = inr (later id (provider pi) as' a, ne)

      added :
          str_eq pi.id hs.self ≡ false
          → In id (found ++ (pi.id ∷ [])) ⊎ (Announced id as' × (id ≢ hs.self))
          → Goal
      added other (inl j) = elim (In-snoc id pi.id found j) [
        | inl k ↦ inl k
        | inr e ↦ inr (
          (pi, inl refl, sym e),
          λ same. ground (arith, (str_eq_iff pi.id hs.self).1 (sym e ∙ same)),
        )
      ]
      added other (inr (a, ne)) = inr (later id (provider pi) as' a, ne)

      connected :
          (r : Result (Unit {0}))
          → (hs.connect pi w).0 ≡ r
          → str_eq pi.id hs.self ≡ false
          → str_eq (hs.id_string pi.id) [] ≡ false
          → hs.is_connected pi.id w ≡ false
          → ((w' : World)
              → In id (find_providers hs as' found w').0
              → In id found ⊎ (Announced id as' × (id ≢ hs.self)))
          → ((w' : World)
              → In id (find_providers hs as' (found ++ (pi.id ∷ [])) w').0
              → In id (found ++ (pi.id ∷ [])) ⊎ (Announced id as' × (id ≢ hs.self)))
          → Goal
      connected (ok u) e other named off past more = added other (
          more (hs.connect pi w).1 (
            moved (find_providers hs as' (found ++ (pi.id ∷ [])) (hs.connect pi w).1)
              (ground arith)))
      connected (err x) e other named off past more = widen (
          past (hs.connect pi w).1
            (moved (find_providers hs as' found (hs.connect pi w).1) (ground arith)))
      connected panic e other named off past more = widen (
          past (hs.connect pi w).1
            (moved (find_providers hs as' found (hs.connect pi w).1) (ground arith)))

      go :
          ((w' : World)
            → In id (find_providers hs as' found w').0
            → In id found ⊎ (Announced id as' × (id ≢ hs.self)))
          → ((w' : World)
              → In id (find_providers hs as' (found ++ (pi.id ∷ [])) w').0
              → In id (found ++ (pi.id ∷ [])) ⊎ (Announced id as' × (id ≢ hs.self)))
          → Goal
      go past more = elim (Bool-cases (str_eq pi.id hs.self)) [
        | inl own ↦ widen (past w (moved (find_providers hs as' found w) (ground arith)))
        | inr other ↦ elim (Bool-cases (str_eq (hs.id_string pi.id) [])) [
          | inl blank ↦ inl (moved (found, w) (ground arith))
          | inr named ↦ elim (Bool-cases (hs.is_connected pi.id w)) [
            | inl on ↦
                added other
                  (more w (moved (find_providers hs as' (found ++ (pi.id ∷ [])) w) (ground arith)))
            | inr off ↦ connected (hs.connect pi w).0 refl other named off past more
          ]
        ]
      ]

  -- FindProviders returns only peers that the routing announced, and never the node itself.
  pub find_providers_sound :
      (as' : List Arrival) (w : World) (id : Str)
      → In id (find_providers hs as' [] w).0
      → Announced id as' × (id ≢ hs.self)
  find_providers_sound as' w id i = elim (find_providers_lem as' [] w id i) [
    | inl none_yet ↦ absurd none_yet
    | inr announced ↦ announced
  ]
