-- ===== src/Peer/Network/Zeroconf.antt =====
-- Nodes of a local network that meet by zeroconf.
use ipfs_lite.Prelude.{
  ◌≡◌, refl, ◌≢◌, inl, inr, arith, true, List, [], ◌∷◌, ◌++◌, Str, str_eq, str_eq_iff, str_eq_refl,
  ok, Bool-cases, ==_iff,
}
use ipfs_lite.Extern.Host.{AddrInfo, Host}
use ipfs_lite.Peer.Network.{
  split_colon, zero_conf_address, connect, zero_conf_pieces, zero_conf_action, zero_conf_instance,
}
use ipfs_lite.Peer.Network.Found.{connect_connected}

-- No colon stands in a string.
unfoldable pub NoColon : Str → Type 0
NoColon [] = Unit
NoColon (c ∷ s) = (c ≢ b':') × NoColon s

split_colon_plain : (s : Str) → NoColon s → split_colon s ≡ s ∷ []
unfolding split_colon NoColon
split_colon_plain [] h = refl
split_colon_plain (c ∷ s) (ne, h) = ground (arith, split_colon_plain s h, ==_iff c b':')

split_colon_pair : (s t : Str) → NoColon s → NoColon t → split_colon (s ++ (b':' ∷ t)) ≡ s ∷ t ∷ []
unfolding split_colon NoColon
split_colon_pair [] t h k = ground (arith, split_colon_plain t k)
split_colon_pair (c ∷ s) t (ne, h) k = ground (arith, split_colon_pair s t h k, ==_iff c b':')

module _ (hs other : Host) where
  -- A node ignores the entry that it registered itself. The entry that another node registered makes
  -- it connected to that node, where the entry's first IPv4 address gives an address of the peer and
  -- connecting succeeds. The printed identifiers and the port have no colon.
  pub zero_conf_meets :
      (port ip : Str) (ips : List Str) (pi : AddrInfo) (w w' : hs.World)
      → NoColon (hs.id_string hs.self)
      → NoColon (other.id_string other.self)
      → NoColon port
      → other.id_string other.self ≢ hs.id_string hs.self
      → hs.p2p_addr_info (zero_conf_address ip port (other.id_string other.self)) ≡ ok pi
      → connect hs true pi w ≡ (ok tt, w')
      → (zero_conf_action hs
            record { instance_name = zero_conf_instance hs port; addr_ipv4 = ip ∷ ips }
            w
          ≡ w)
        × (hs.is_connected pi.id (
              zero_conf_action hs
                record { instance_name = zero_conf_instance other port; addr_ipv4 = ip ∷ ips }
                w)
            ≡ true)
  unfolding zero_conf_action zero_conf_instance zero_conf_pieces
  zero_conf_meets port ip ips pi w w' own_plain other_plain port_plain ne parsed made =
      let own = split_colon_pair (hs.id_string hs.self) port own_plain port_plain in
      let theirs = split_colon_pair (other.id_string other.self) port other_plain port_plain in
      let self = str_eq_refl (hs.id_string hs.self) in
      (
        ground (arith, own, self),
        elim (Bool-cases (str_eq (other.id_string other.self) (hs.id_string hs.self))) [
          | inl same ↦
              absurd (ne ((str_eq_iff (other.id_string other.self) (hs.id_string hs.self)).0 same))
          | inr differs ↦
              let connected = (connect_connected hs true pi w).0 w' made in
              elim (Bool-cases (hs.is_connected pi.id w)) [
                | inl on ↦ ground (arith, theirs)
                | inr off ↦ ground (arith, theirs)
              ]
        ],
      )
