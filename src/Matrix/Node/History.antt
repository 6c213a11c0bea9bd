-- ===== src/Matrix/Node/History.antt =====
-- What an entry of the matrix says after any sequence of calls, of however many connections a peer has.
use mathlib.Core.Path.{subst}
use ipfs_lite.Prelude.{
  if_cases, str_eq, str_eq_iff, ap, sym, ◌∙◌, ◌≡◌, refl, ◌≢◌, inl, inr, ℕ, ◌+◌, ◌%◌, ◌≤◌, Bool,
  true, false, List, [], ◌∷◌, some, arith, All, All-append, length, length-append, Str, lookup,
  insert, lookup-insert, Int64, int64_mod, ok, ◌==◌, if◌then◌else◌, Bool-cases,
}
use ipfs_lite.Matrix.Node.{
  NodeMatrix, DiscoveredNodeMatrix, or_new, Event, ble, wifi, connected, failed, disconnected, step,
  with_node, node_of, see_ble, see_wifi, connect_node, fail_node, disconnect_node, delay_of,
  session_of, ble_discovered, wifi_connected, node_connected, node_connection_failed,
  node_disconnected,
}

-- The calls that have returned, the newest first.
abbrev pub Trace : Type 0
Trace = List (Str × Event)

pub data Reach (s : NodeMatrix) : Trace → NodeMatrix → Type 0 where
  here : Reach s [] s
  next :
      {es : Trace} {m m' : NodeMatrix} (now : Int64) (a : Str) (e : Event)
      → Reach s es m
      → step now a e m ≡ ok m'
      → Reach s ((a, e) ∷ es) m'

abbrev pub is_connect : Event → ℕ
is_connect connected = 1
is_connect _ = 0

abbrev pub is_failure : Event → ℕ
is_failure failed = 1
is_failure _ = 0

abbrev pub is_disconnect : Event → ℕ
is_disconnect (disconnected down) = 1
is_disconnect _ = 0

-- How many of the calls at an address are of a kind.
unfoldable pub tally : (Event → ℕ) → Str → Trace → ℕ
tally kind a [] = 0
tally kind a ((b, e) ∷ es) =
    let rest = tally kind a es in if str_eq b a then kind e + rest else rest

-- Whether the last of the connections and disconnections at an address was a connection.
abbrev pub link_after : Event → Bool → Bool
link_after connected before = true
link_after (disconnected down) before = false
link_after _ before = before

unfoldable pub linked : Bool → Str → Trace → Bool
linked before a [] = before
linked before a ((b, e) ∷ es) =
    let rest = linked before a es in if str_eq b a then link_after e rest else rest

-- No recorded delay is zero, and a peer that is not connected has no connection time.
pub record IsSound (n : DiscoveredNodeMatrix) : Type 0 where
  pub delayed : All (λ d. d ≢ 0) n.discovery_delays
  pub cleared : n.connection_alive ≡ false → n.ipfs_connected_at ≡ 0

-- The entry of an address after some calls, beside what it was before them.
pub record IsCounted (a : Str) (es : Trace) (n0 n : DiscoveredNodeMatrix) : Type 0 where
  pub sound : IsSound n
  pub successes :
      n.connection_success_count % int64_mod
      ≡ (n0.connection_success_count + tally is_connect a es) % int64_mod
  pub failures :
      n.connection_failure_count % int64_mod
      ≡ (n0.connection_failure_count + tally is_failure a es) % int64_mod
  pub sessions :
      length n.connection_history ≡ length n0.connection_history + tally is_disconnect a es
  pub delays : length n.discovery_delays ≤ length n0.discovery_delays + tally is_connect a es
  pub alive : n.connection_alive ≡ linked n0.connection_alive a es

-- What a call does to the entry of its address.
abbrev after : Int64 → Event → DiscoveredNodeMatrix → DiscoveredNodeMatrix
after now ble n = see_ble now n
after now (wifi r p f) n = see_wifi now r p f n
after now connected n = connect_node now n
after now failed n = fail_node n
after now (disconnected down) n = disconnect_node now down n

step_entry :
    (now : Int64) (b : Str) (e : Event) (m m' : NodeMatrix)
    → step now b e m ≡ ok m'
    → m'.nodes_discovered ≡ insert b (after now e (node_of b m)) m.nodes_discovered
unfolding step with_node ble_discovered wifi_connected node_connected node_connection_failed
    node_disconnected
step_entry now b ble m m' h = ground arith
step_entry now b (wifi r p f) m m' h = ground arith
step_entry now b connected m m' h = ground arith
step_entry now b failed m m' h = ground arith
step_entry now b (disconnected down) m m' h = ground arith

-- The call leaves the entries of the other addresses.
step-node_of :
    (now : Int64) (a b : Str) (e : Event) (m m' : NodeMatrix)
    → step now b e m ≡ ok m'
    → node_of a m' ≡ (if str_eq b a then after now e (node_of a m) else node_of a m)
step-node_of now a b e m m' h =
    let written = step_entry now b e m m' h in
    let found = lookup-insert b a (after now e (node_of b m)) m.nodes_discovered in
    let at_a = ap (lookup a) written ∙ found in
    elim (Bool-cases (str_eq b a)) [
      | inl same ↦
          let there : node_of b m ≡ node_of a m = ap (λ x. node_of x m) ((str_eq_iff b a).0 same) in
          ap or_new (
            at_a
            ∙ ap (λ c. if c then some (after now e (node_of b m)) else lookup a m.nodes_discovered)
                same)
          ∙ ap (after now e) there
          ∙ ap (λ c. if c then after now e (node_of a m) else node_of a m) (sym same)
      | inr other ↦
          ap or_new (
            at_a
            ∙ ap (λ c. if c then some (after now e (node_of b m)) else lookup a m.nodes_discovered)
                other)
          ∙ ap (λ c. if c then after now e (node_of a m) else node_of a m) (sym other)
    ]

delay_of-ne : (now seen : Int64) → delay_of now seen ≢ 0
unfolding delay_of
delay_of-ne now seen = ground arith

after-IsSound :
    (now : Int64) (e : Event) (n : DiscoveredNodeMatrix) → IsSound n → IsSound (after now e n)
unfolding see_ble see_wifi connect_node fail_node disconnect_node
after-IsSound now ble n s =
    if_cases IsSound n.connection_alive (λ _. s)
      (λ _. record { delayed = s.delayed; cleared = s.cleared })
after-IsSound now (wifi r p f) n s =
    if_cases IsSound n.connection_alive (λ _. s)
      (λ _. record { delayed = s.delayed; cleared = s.cleared })
after-IsSound now connected n s = record {
  delayed = elim (Bool-cases (n.ble_discovered_at == 0)) [
    | inl unseen ↦ rw unseen s.delayed
    | inr seen ↦ rw seen (All-append _ n.discovery_delays _ s.delayed (delay_of-ne now _, tt))
  ];
  cleared = λ e. cc;
}
after-IsSound now failed n s = record { delayed = s.delayed; cleared = s.cleared }
after-IsSound now (disconnected down) n s = record { delayed = s.delayed; cleared = λ _. refl }

-- The counts of an entry after one more call at its address.
after-counts :
    (now : Int64) (e : Event) (n : DiscoveredNodeMatrix)
    → ((after now e n).connection_success_count % int64_mod
        ≡ (n.connection_success_count + is_connect e) % int64_mod)
      × ((after now e n).connection_failure_count % int64_mod
          ≡ (n.connection_failure_count + is_failure e) % int64_mod)
      × (length (after now e n).connection_history ≡ length n.connection_history + is_disconnect e)
      × (length (after now e n).discovery_delays ≤ length n.discovery_delays + is_connect e)
      × ((after now e n).connection_alive ≡ link_after e n.connection_alive)
unfolding see_ble see_wifi connect_node fail_node disconnect_node
after-counts now ble n = ground arith
after-counts now (wifi r p f) n = ground arith
after-counts now connected n =
    ground (arith, length-append n.discovery_delays (delay_of now n.ble_discovered_at ∷ []))
after-counts now failed n = ground arith
after-counts now (disconnected down) n =
    ground (arith, length-append n.connection_history (session_of down n ∷ []))

after-IsCounted :
    (now : Int64) (a b : Str) (e : Event) (es : Trace) (n0 n : DiscoveredNodeMatrix)
    → str_eq b a ≡ true
    → IsCounted a es n0 n
    → IsCounted a ((b, e) ∷ es) n0 (after now e n)
unfolding tally linked
after-IsCounted now a b e es n0 n same c =
    let (up, fail, past, seen, live) = after-counts now e n in
    record {
      sound = after-IsSound now e n c.sound;
      successes = ground (arith, same, up, c.successes);
      failures = ground (arith, same, fail, c.failures);
      sessions = ground (arith, same, past, c.sessions);
      delays = ground (arith, same, seen, c.delays);
      alive = ground (arith, same, live, c.alive);
    }

other-IsCounted :
    (a b : Str) (e : Event) (es : Trace) (n0 n : DiscoveredNodeMatrix)
    → str_eq b a ≡ false
    → IsCounted a es n0 n
    → IsCounted a ((b, e) ∷ es) n0 n
unfolding tally linked
other-IsCounted a b e es n0 n other c = record {
  sound = c.sound;
  successes = ground (arith, other, c.successes);
  failures = ground (arith, other, c.failures);
  sessions = ground (arith, other, c.sessions);
  delays = ground (arith, other, c.delays);
  alive = ground (arith, other, c.alive);
}

-- Whatever calls the network, the drivers and the application make, in any order and at any
-- addresses, also of several connections of one peer: where the entry of an address was sound, it
-- stays so, that is no recorded discovery delay is zero, and a peer that is not connected has no
-- connection time. Modulo 2^64, its successes and its failures have grown by the connections and by
-- the failures of that address, its history by as many entries as there were disconnections, and the
-- delays by no more than there were connections. It counts as connected where the last of its
-- connections and disconnections was a connection, or as before where there was none.
pub Reach-IsCounted :
    (a : Str) (m0 m : NodeMatrix) (es : Trace)
    → IsSound (node_of a m0)
    → Reach m0 es m
    → IsCounted a es (node_of a m0) (node_of a m)
unfolding tally linked
Reach-IsCounted a m0 m es s here = record {
  sound = s;
  successes = omega arith;
  failures = omega arith;
  sessions = omega arith;
  delays = omega arith;
  alive = refl;
}
Reach-IsCounted a m0 m es s (next {es = es'} {m = k} now b e r h) =
    let before = Reach-IsCounted a m0 k es' s r in
    let written = step-node_of now a b e k m h in
    elim (Bool-cases (str_eq b a)) [
      | inl same ↦
          subst (IsCounted a ((b, e) ∷ es') (node_of a m0)) (sym (ground (arith, written, same)))
            (after-IsCounted now a b e es' (node_of a m0) (node_of a k) same before)
      | inr other ↦
          subst (IsCounted a ((b, e) ∷ es') (node_of a m0)) (sym (ground (arith, written, other)))
            (other-IsCounted a b e es' (node_of a m0) (node_of a k) other before)
    ]
